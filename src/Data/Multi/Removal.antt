-- ===== src/Data/Multi/Removal.antt =====
-- `DataMulti::remove` of server/data_server.rs, with a client that has the collection.
use native.Mathlib.Nat.{mod-eq_of_lt}
use egui_states.Prelude.{
  ℕ, ◌+◌, ◌*◌, ◌^◌, ◌<◌, ◌≤◌, ◌≡◌, refl, ap, ap₂, sym, ◌∙◌, subst, Bytes, Bool, true, some, [], ◌∷◌,
  ◌++◌, List, map, length, take, drop, arith, false, ==_iff, le→leb, find, put, put_at, put_other,
}
use egui_states.Outcome.{ok}
use egui_states.Protocol.DataType.{item_size}
use egui_states.Protocol.Headers.{ServerHeader, MultiDataHeader, DataHeader}
use egui_states.Protocol.Codec.{Codec, IsLawful}
use egui_states.Pack.Arrays.{Packed}
use egui_states.Messages.Groups.{flatten, AllNonempty, AreFrames, read_each-AreFrames}
use egui_states.Messages.Spec.{message_of}
use egui_states.Messages.Frames.{Frame}
use egui_states.Data.Message.{drain, modify}
use egui_states.Data.Client.Save.{len_lem}
use egui_states.Data.Frames.{frame-IsFrame}
use egui_states.Data.Operations.{IsConsistent, drain_end_lem}
use egui_states.Data.Multi.Client.{
  MultiClient, element_size, handle_multi, update_multi, drain_multi, splice_at,
}
use egui_states.Data.Multi.Server.{MultiServer, remove_multi}
use egui_states.Data.Multi.Inversion.{entry, remove_multi_inv}
use egui_states.Data.Multi.Synced.{InSyncMulti, SyncedMulti, bytes_of, changed_at}

-- The client's collection after a `Drain` of one array.
abbrev drained : MultiClient → ℕ → Bytes → ℕ → ℕ → MultiClient
drained c key old index size = record c {
  acks = c.acks + 1;
  inner =
      put c.inner key
        (some (take (index * element_size c) old ++ drop ((index + size) * element_size c) old));
}

drain_lem :
    (alloc : ℕ → ℕ) (c : MultiClient) (key : ℕ) (old : Bytes) (count index size : ℕ)
    → c.inner key ≡ some old
    → length old ≡ count * element_size c
    → index + size < 2 ^ 64
    → index + size ≤ count
    → handle_multi alloc c (modify key (drain index size)) ≡ (drained c key old index size, ok tt)
unfolding handle_multi update_multi drain_multi splice_at
drain_lem alloc c key old count index size there counted whole inside = rw there (
    rw (mod-eq_of_lt {n = index + size} {m = 2 ^ 64} whole) (
      rw (len_lem (egui_states.Data.Multi.View.view c key) old count counted)
        (rw (le→leb _ _ inside) (rw (le→leb index (index + size) (omega arith)) refl))))

module _ (codec : Codec ServerHeader) (lawful : IsLawful codec) (alloc : ℕ → ℕ)
    (exact : (n : ℕ) → alloc n ≡ n) (threshold : ℕ) (low : 8 ≤ threshold)
    (high : threshold < 2 ^ 32) (c : MultiClient) (s : MultiServer) (sync : InSyncMulti c s)
    (index : ℕ) (update : Bool) (ms : List Packed) (ws : List (List Bytes)) (n : AllNonempty ws)
    (joined : flatten ws ≡ map (λ m. m.0) ms) (p : Bytes × ℕ)
    (there : find index s.values ≡ some p) where
  pub remove_multi-Synced :
      (i size : ℕ)
      → IsConsistent (entry s p)
      → i + size < 2 ^ 64
      → (remove_multi threshold codec s index update true i size).1 ≡ ok (some ms)
      → SyncedMulti codec lawful alloc exact threshold low high c s sync index update ms ws n joined
          (remove_multi threshold codec s index update true i size).0
  remove_multi-Synced i size v whole e =
      let (some_there, fits, ordered, inside, state, (m, made, one)) =
        remove_multi_inv threshold codec s index update ms p there i size e in
      let sum = mod-eq_of_lt {n = i + size} {m = 2 ^ 64} whole in
      let (f, g, room, split) = drain_end_lem (entry s p) i size v (omega arith) in
      let had : c.inner index ≡ some p.0 = sync.same index ∙ ap bytes_of there in
      let type = ap item_size sync.same_type in
      let h : Frame = (
        ServerHeader.multi_data s.id
            (MultiDataHeader.modify index (DataHeader.drain i size update)),
        [],
      ) in
      let frames : AreFrames codec (h ∷ []) (flatten ws) = (
        m.0,
        [],
        joined ∙ ap (map (λ m. m.0)) one,
        frame-IsFrame codec h.0 [] false m refl made,
        refl,
      ) in
      let d = drained c index p.0 i size in
      subst
        (SyncedMulti codec lawful alloc exact threshold low high c s sync index update ms ws n
          joined)
        (sym state)
        (
          d,
          (
            message_of h.0 h.1 ∷ [],
            read_each-AreFrames codec lawful ws (h ∷ []) n frames,
            rw ((==_iff s.id s.id).1 refl) (
              d,
              drain_lem alloc c index p.0 p.1 i size had (v.counted ∙ ap (λ k. p.1 * k) (sym type))
                  whole (omega arith),
              refl,
            ),
          ),
          changed_at c d s index _ _ sync refl
              (put_at c.inner index _
                ∙ ap some (
                    ap (λ k. take (i * k) p.0 ++ drop ((i + size) * k) p.0) type
                    ∙ ap₂ (λ a b. take a p.0 ++ drop b p.0) (sym f) (sym g)))
              (λ j ne. put_other c.inner j index _ ne),
          refl,
        )
