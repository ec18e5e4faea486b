-- ===== src/Data/Multi/Counting.antt =====
-- The acknowledgements after a `sync` of `DataMulti` (server/data_server.rs).
use egui_states.Prelude.{
  ℕ, zero, suc, ◌-◌, ◌<◌, ◌≡◌, refl, ap, sym, ◌∙◌, subst, true, false, leb, ◌==◌, ==_to, length,
  arith, Bool-cases, inl, inr, le→leb, lt→leb_false,
}
use egui_states.Protocol.Headers.{ServerHeader}
use egui_states.Protocol.Codec.{Codec}
use egui_states.Data.Multi.Server.{MultiServer, acknowledge_multi, sync_multi}

-- So many acknowledgements, one after the other.
unfoldable pub acknowledge_times : ℕ → MultiServer → MultiServer
unfolding acknowledge_multi
acknowledge_times zero s = s
acknowledge_times (suc k) s = acknowledge_times k (acknowledge_multi s)

-- The event stays set.
stays :
    (k : ℕ) (s : MultiServer)
    → s.sync_counter ≡ 0
    → s.event ≡ true
    → (acknowledge_times k s).event ≡ true
unfolding acknowledge_times acknowledge_multi
stays zero s e h = h
stays (suc k) s e h =
    let next : acknowledge_multi s ≡ record s { event = true } = ground arith in
    subst (λ (x : MultiServer). (acknowledge_times k x).event ≡ true) (sym next)
      (stays k (record s { event = true }) e refl)

last_one :
    (s : MultiServer)
    → s.sync_counter ≡ 1
    → acknowledge_multi s ≡ record s { sync_counter = 0; event = true }
unfolding acknowledge_multi
last_one s e = ground arith

not_last :
    (s : MultiServer)
    → 1 < s.sync_counter
    → acknowledge_multi s ≡ record s { sync_counter = s.sync_counter - 1 }
unfolding acknowledge_multi
not_last s h = ground arith

leb_less : (n k : ℕ) → 0 < n → leb (n - 1) k ≡ leb n (suc k)
leb_less n k pos = ground arith

counted :
    (k : ℕ) (s : MultiServer)
    → 0 < s.sync_counter
    → s.event ≡ false
    → (acknowledge_times k s).event ≡ leb s.sync_counter k
unfolding acknowledge_times
counted zero s pos quiet = quiet ∙ sym (lt→leb_false s.sync_counter zero pos)
counted (suc k) s pos quiet = elim (Bool-cases (s.sync_counter == 1)) [
  | inl one ↦
      let e = ==_to s.sync_counter 1 one in
      let next = last_one s e in
      ap (λ (x : MultiServer). (acknowledge_times k x).event) next
      ∙ stays k (record s { sync_counter = 0; event = true }) refl refl
      ∙ sym (le→leb s.sync_counter (suc k) (omega arith))
  | inr more ↦
      let above : 1 < s.sync_counter = ground arith in
      ap (λ (x : MultiServer). (acknowledge_times k x).event) (not_last s above)
      ∙ counted k (record s { sync_counter = s.sync_counter - 1 }) (omega arith) quiet
      ∙ leb_less s.sync_counter k pos
]

-- After a `sync` of a collection that is not empty, the event is set exactly once as many
-- acknowledgements have come as the collection has arrays; this holds whether or not all messages
-- could be made.
pub sync_multi-acknowledge_times :
    (threshold : ℕ) (codec : Codec ServerHeader) (s : MultiServer) (k : ℕ)
    → 0 < length s.values
    → (acknowledge_times k (sync_multi threshold codec s).0).event ≡ leb (length s.values) k
unfolding sync_multi
sync_multi-acknowledge_times threshold codec s k some_there =
    let synced : (sync_multi threshold codec s).0
        ≡ record s { event = false; sync_counter = length s.values } =
      ground arith in
    ap (λ (x : MultiServer). (acknowledge_times k x).event) synced
    ∙ counted k (record s { event = false; sync_counter = length s.values }) some_there refl
