-- ===== src/Take/Ledger.antt =====
-- The course of a blocking value between server/values_server.rs and client/values.rs.
use egui_states.Prelude.{
  ◌≤◌, ◌≡◌, refl, ap, ap₂, length, sym, ◌∙◌, subst, Bytes, Bool, true, false, List, Option, none,
  some, [], ◌∷◌, ◌++◌, map, ◌==◌, if◌then◌else◌, append-nil, arith, Bool-cases, inl, inr,
  Option-cases,
}
use egui_states.Protocol.Headers.{ServerHeader}
use egui_states.Protocol.Codec.{Codec}
use egui_states.Value.Client.{ChannelMessage, ack, deserialize}
use egui_states.Take.{resume_take, acknowledge_take}
use egui_states.Take.Client.{TakeClient, ack_if, taken, take_value, update_take}
use egui_states.Take.Link.{
  Link, Step, Reach, opened, refused, refused_as, released, serve_take, server_set, arrives,
  client_take, acknowledged, here, then_step,
}

abbrev pub AllFree : List (Bytes × Bool) → Type 0
AllFree [] = Unit
AllFree (p ∷ ps) = (p.1 ≡ false) × AllFree ps

-- The blocking values on their way.
abbrev pub blocking_of : List (Bytes × Bool) → List Bytes
blocking_of [] = []
blocking_of (p ∷ ps) = let rest = blocking_of ps in if p.1 then p.0 ∷ rest else rest

AllFree-append :
    (ps : List (Bytes × Bool)) (b : Bytes) → AllFree ps → AllFree (ps ++ ((b, false) ∷ []))
AllFree-append [] b h = (refl, tt)
AllFree-append (p ∷ ps) b (e, h) = (e, AllFree-append ps b h)

map-append {ℓ κ} :
    {A : Type ℓ} {B : Type κ} (f : A → B) (xs ys : List A) → map f (xs ++ ys) ≡ map f xs ++ map f ys
map-append f [] ys = refl
map-append f (x ∷ xs) ys = ap (◌∷◌ (f x)) (map-append f xs ys)

module _ {T : Type 0} (wire : Codec T) where
  -- The blocking value that the client holds.
  abbrev pub IsFree : Option (T × Bool) → Type 0
  IsFree none = Unit
  IsFree (some p) = p.1 ≡ false

  -- All that was sent as blocking, as the client opens it.
  abbrev pub opened_all : Link T → List (Option T)
  opened_all l = map (opened wire l) l.sent

  -- At most one blocking value is not done with: on its way behind all others, at the client, or
  -- acknowledged.
  pub data IsSound (l : Link T) : Type 0 where
    ready :
        l.server.event ≡ true
        → AllFree l.to_client
        → IsFree l.client.value
        → l.client.messages ≡ []
        → opened_all l ≡ l.done
        → IsSound l
    on_way :
        (front : List (Bytes × Bool)) (bytes : Bytes)
        → l.server.event ≡ false
        → l.to_client ≡ front ++ ((bytes, true) ∷ [])
        → AllFree front
        → IsFree l.client.value
        → l.client.messages ≡ []
        → opened_all l ≡ l.done ++ (opened wire l bytes ∷ [])
        → IsSound l
    held :
        (t : T)
        → l.server.event ≡ false
        → l.to_client ≡ []
        → l.client.value ≡ some (t, true)
        → l.client.messages ≡ []
        → opened_all l ≡ l.done ++ (some t ∷ [])
        → IsSound l
    acked :
        l.server.event ≡ false
        → l.to_client ≡ []
        → IsFree l.client.value
        → l.client.messages ≡ ack l.client.id ∷ []
        → opened_all l ≡ l.done
        → IsSound l

  -- What was sent in a set.
  set_lem :
      (l : Link T) (bytes : Bytes) (blocking : Bool) (m : Bytes)
      → IsSound l
      → l.server.event ≡ true
      → IsSound (record l {
        server = (resume_take l.server m blocking true).0;
        to_client = l.to_client ++ ((bytes, blocking) ∷ []);
        sent = l.sent ++ (if blocking then bytes ∷ [] else []);
      })
  unfolding resume_take
  set_lem l bytes true m (ready e free loose quiet done) ev =
      on_way l.to_client bytes refl refl free loose quiet (
        map-append (opened wire l) l.sent (bytes ∷ [])
        ∙ ap (λ xs. xs ++ (opened wire l bytes ∷ [])) done)
  set_lem l bytes false m (ready e free loose quiet done) ev =
      ready e (AllFree-append l.to_client bytes free) loose quiet
        (ap (map (opened wire l)) (append-nil l.sent) ∙ done)
  set_lem l bytes b m (on_way front x e onway free loose quiet done) ev = cc
  set_lem l bytes b m (held t e onway has quiet done) ev = cc
  set_lem l bytes b m (acked e onway loose quiet done) ev = cc

  -- Any state with the same blocking values done with.
  same_done : (l : Link T) → IsSound l → IsSound (record l { done = l.done ++ [] })
  same_done l h =
      subst (λ (xs : List (Option T)). IsSound (record l { done = xs })) (sym (append-nil l.done)) h

  -- A value that does not block is no matter.
  loosened :
      (l : Link T)
      → IsSound l
      → IsFree l.client.value
      → IsSound (record l { client = record (l.client) { value = none } })
  loosened l (ready e free loose quiet done) h = ready e free tt quiet done
  loosened l (on_way front x e onway free loose quiet done) h =
      on_way front x e onway free tt quiet done
  loosened l (held t e onway has quiet done) h = let no : true ≡ false = subst IsFree has h in cc
  loosened l (acked e onway loose quiet done) h = acked e onway tt quiet done

  take_held :
      (l : Link T) (t : T)
      → IsSound l
      → l.client.value ≡ some (t, true)
      → IsSound (record l {
        client = (taken l.client (some (t, true))).0;
        done = l.done ++ (some t ∷ []);
      })
  take_held l t (ready e free loose quiet done) h =
      let no : true ≡ false = subst IsFree h loose in cc
  take_held l t (on_way front x e onway free loose quiet done) h =
      let no : true ≡ false = subst IsFree h loose in cc
  take_held l t (acked e onway loose quiet done) h =
      let no : true ≡ false = subst IsFree h loose in cc
  take_held l t (held u e onway has quiet done) h =
      let same : u ≡ t = cc in
      acked e onway tt (ap (λ (ms : List ChannelMessage). ms ++ (ack l.client.id ∷ [])) quiet)
        (done ∙ ap (λ (x : T). l.done ++ (some x ∷ [])) same)

  taken_lem :
      (l : Link T) (o : Option (T × Bool))
      → IsSound l
      → l.client.value ≡ o
      → IsSound (record l { client = (taken l.client o).0; done = l.done ++ released wire o })
  taken_lem l none h e = same_done l h
  taken_lem l (some (t, true)) h e = take_held l t h e
  taken_lem l (some (t, false)) h e =
      same_done (record l { client = record (l.client) { value = none } })
        (loosened l h (subst IsFree (sym e) refl))

  take_lem :
      (l : Link T)
      → IsSound l
      → IsSound (record l {
        client = (take_value l.client).0;
        done = l.done ++ released wire l.client.value;
      })
  unfolding take_value
  take_lem l h = taken_lem l l.client.value h refl

  -- An acknowledgement arrives.
  serve_lem :
      (l : Link T) (m : ChannelMessage) (rest : List ChannelMessage)
      → IsSound l
      → l.client.messages ≡ m ∷ rest
      → IsSound (record l {
        server = serve_take l.server m;
        client = record (l.client) { messages = rest };
      })
  unfolding serve_take acknowledge_take
  serve_lem l m rest (ready e free loose quiet done) h = cc
  serve_lem l m rest (on_way front x e onway free loose quiet done) h = cc
  serve_lem l m rest (held t e onway has quiet done) h = cc
  serve_lem l m rest (acked e onway loose quiet done) h =
      let first : m ≡ ack l.client.id = cc in
      let none_left : rest ≡ [] = cc in
      subst
        (λ (x : ChannelMessage). IsSound (record l {
          server = serve_take l.server x;
          client = record (l.client) { messages = rest };
        }))
        (sym first) (ready refl (subst AllFree (sym onway) tt) loose none_left done)

  -- The client with a value that it opened, or could not.
  abbrev landed : TakeClient T → Bool → Option T → TakeClient T
  landed c blocking none = ack_if blocking c
  landed c blocking (some t) = record c { value = some (t, blocking) }

  update_take-landed :
      (l : Link T) (bytes : Bytes) (blocking : Bool)
      → (update_take wire l.client l.server.type_id bytes blocking).0
        ≡ landed l.client blocking (opened wire l bytes)
  unfolding update_take
  update_take-landed l bytes blocking = elim (Bool-cases (l.server.type_id == l.client.type_id)) [
    | inl same ↦ rw same (elim (Option-cases (deserialize wire bytes)) [
      | inl e ↦ rw e refl
      | inr (t, e) ↦ rw e refl
    ])
    | inr differ ↦ rw differ refl
  ]

  -- The state after an arrival that the client opens as `o`.
  abbrev with_landed : Link T → Bool → List (Bytes × Bool) → Option T → Link T
  with_landed l blocking rest o = record l {
    client = landed l.client blocking o;
    to_client = rest;
    done = l.done ++ refused_as wire blocking o;
  }

  land_free :
      (l : Link T) (b : Bytes) (rest : List (Bytes × Bool)) (o : Option T)
      → IsSound l
      → l.to_client ≡ (b, false) ∷ rest
      → IsSound (with_landed l false rest o)
  land_free l b rest none (ready e free loose quiet done) h =
      same_done (record l { to_client = rest }) (ready e (subst AllFree h free).1 loose quiet done)
  land_free l b rest (some t) (ready e free loose quiet done) h =
      same_done
        (record l { client = record (l.client) { value = some (t, false) }; to_client = rest })
        (ready e (subst AllFree h free).1 refl quiet done)
  land_free l b rest o (held u e onway has quiet done) h = cc
  land_free l b rest o (acked e onway loose quiet done) h = cc
  land_free l b rest o (on_way [] x e onway free loose quiet done) h = cc
  land_free l b rest none (on_way (p ∷ ps) x e onway free loose quiet done) h =
      let left : rest ≡ ps ++ ((x, true) ∷ []) = cc in
      same_done (record l { to_client = rest }) (on_way ps x e left free.1 loose quiet done)
  land_free l b rest (some t) (on_way (p ∷ ps) x e onway free loose quiet done) h =
      let left : rest ≡ ps ++ ((x, true) ∷ []) = cc in
      same_done
        (record l { client = record (l.client) { value = some (t, false) }; to_client = rest })
        (on_way ps x e left free.1 refl quiet done)

  land_blocking :
      (l : Link T) (b : Bytes) (rest : List (Bytes × Bool)) (o : Option T)
      → opened wire l b ≡ o
      → IsSound l
      → l.to_client ≡ (b, true) ∷ rest
      → IsSound (with_landed l true rest o)
  land_blocking l b rest o q (ready e free loose quiet done) h =
      let no : true ≡ false = (subst AllFree h free).0 in cc
  land_blocking l b rest o q (held u e onway has quiet done) h = cc
  land_blocking l b rest o q (acked e onway loose quiet done) h = cc
  land_blocking l b rest o q (on_way (p ∷ ps) x e onway free loose quiet done) h =
      let same : p ≡ (b, true) = cc in
      let no : true ≡ false = ap (λ (r : Bytes × Bool). r.1) (sym same) ∙ free.0 in cc
  land_blocking l b rest none q (on_way [] x e onway free loose quiet done) h =
      let last : rest ≡ [] = cc in
      let same : x ≡ b = cc in
      acked e last loose (ap (λ (ms : List ChannelMessage). ms ++ (ack l.client.id ∷ [])) quiet)
        (done ∙ ap (λ (y : Option T). l.done ++ (y ∷ [])) (ap (opened wire l) same ∙ q))
  land_blocking l b rest (some t) q (on_way [] x e onway free loose quiet done) h =
      let last : rest ≡ [] = cc in
      let same : x ≡ b = cc in
      subst
        (λ (xs : List (Option T)).
          IsSound (record (with_landed l true rest (some t)) { done = xs }))
        (sym (append-nil l.done))
        (held t e last refl quiet
          (done ∙ ap (λ (y : Option T). l.done ++ (y ∷ [])) (ap (opened wire l) same ∙ q)))

  arrive_lem :
      (l : Link T) (b : Bytes) (blocking : Bool) (rest : List (Bytes × Bool))
      → IsSound l
      → l.to_client ≡ (b, blocking) ∷ rest
      → IsSound (with_landed l blocking rest (opened wire l b))
  arrive_lem l b true rest h e = land_blocking l b rest (opened wire l b) refl h e
  arrive_lem l b false rest h e = land_free l b rest (opened wire l b) h e

  module _ (codec : Codec ServerHeader) where
    Step-IsSound : {l m : Link T} → IsSound l → Step wire codec l m → IsSound m
    Step-IsSound h (server_set l bytes blocking update m e ev) = set_lem l bytes blocking m h ev
    Step-IsSound h (arrives l bytes blocking rest e) =
        subst
          (λ (c : TakeClient T). IsSound (record l {
            client = c;
            to_client = rest;
            done = l.done ++ refused wire l bytes blocking;
          }))
          (sym (update_take-landed l bytes blocking)) (arrive_lem l bytes blocking rest h e)
    Step-IsSound h (client_take l) = take_lem l h
    Step-IsSound h (acknowledged l m rest e) = serve_lem l m rest h e

    pub Reach-IsSound : {l m : Link T} → IsSound l → Reach wire codec l m → IsSound m
    Reach-IsSound h (here) = h
    Reach-IsSound h (then_step r s) = Step-IsSound (Reach-IsSound h r) s

    -- The blocking value that is not done with, at the client or on its way.
    abbrev pub outstanding : Link T → List (Option T)
    outstanding l = released wire l.client.value ++ map (opened wire l) (blocking_of l.to_client)

    -- A link after `sync`, whose client holds no blocking value.
    pub record IsFresh (l : Link T) : Type 0 where
      pub event : l.server.event ≡ true
      pub nothing_sent :
          (l.to_client ≡ []) × (l.client.messages ≡ []) × (l.sent ≡ []) × (l.done ≡ [])
      pub free : IsFree l.client.value

    pub IsFresh-IsSound : (l : Link T) → IsFresh l → IsSound l
    IsFresh-IsSound l h =
        let (onway, quiet, sent, done) = h.nothing_sent in
        ready h.event (subst AllFree (sym onway) tt) h.free quiet
          (ap (map (opened wire l)) sent ∙ sym done)

    free_released : (o : Option (T × Bool)) → IsFree o → released wire o ≡ []
    free_released none h = refl
    free_released (some (t, b)) h = rw h refl

    blocking_of_free : (ps : List (Bytes × Bool)) → AllFree ps → blocking_of ps ≡ []
    blocking_of_free [] h = refl
    blocking_of_free (p ∷ ps) (e, h) = rw e (blocking_of_free ps h)

    blocking_of_last :
        (ps : List (Bytes × Bool)) (b : Bytes)
        → AllFree ps
        → blocking_of (ps ++ ((b, true) ∷ [])) ≡ b ∷ []
    blocking_of_last [] b h = refl
    blocking_of_last (p ∷ ps) b (e, h) = rw e (blocking_of_last ps b h)

    outstanding_lem :
        (l : Link T) (xs : List (Option T)) (bs : List Bytes)
        → released wire l.client.value ≡ xs
        → blocking_of l.to_client ≡ bs
        → outstanding l ≡ xs ++ map (opened wire l) bs
    outstanding_lem l xs bs e f = ap₂ (λ ys cs. ys ++ map (opened wire l) cs) e f

    -- From a link after `sync`, whose client holds no blocking value, after any steps: the values that
    -- were sent as blocking are, in order, those that the client has taken or refused, followed by the
    -- one that is not done with, of which there is at most one, and none while the event is set.
    pub blocking_order :
        (l m : Link T)
        → IsFresh l
        → Reach wire codec l m
        → (opened_all m ≡ m.done ++ outstanding m)
          × (length (outstanding m) ≤ 1)
          × (m.server.event ≡ true → outstanding m ≡ [])
    blocking_order l m h r = elim (Reach-IsSound (IsFresh-IsSound l h) r) [
      | ready e free loose quiet done ↦
          let none_left : outstanding m ≡ [] =
            outstanding_lem m [] [] (free_released m.client.value loose)
              (blocking_of_free m.to_client free) in
          rw none_left (done ∙ sym (append-nil m.done), omega arith, λ _. refl)
      | on_way front x e onway free loose quiet done ↦
          let one : outstanding m ≡ opened wire m x ∷ [] =
            outstanding_lem m [] (x ∷ []) (free_released m.client.value loose)
              (ap blocking_of onway ∙ blocking_of_last front x free) in
          rw one (done, omega arith, λ f. cc)
      | held t e onway has quiet done ↦
          let one : outstanding m ≡ some t ∷ [] =
            outstanding_lem m (some t ∷ []) [] (ap (released wire) has) (ap blocking_of onway) in
          rw one (done, omega arith, λ f. cc)
      | acked e onway loose quiet done ↦
          let none_left : outstanding m ≡ [] =
            outstanding_lem m [] [] (free_released m.client.value loose) (ap blocking_of onway) in
          rw none_left (done ∙ sym (append-nil m.done), omega arith, λ f. cc)
    ]
