-- ===== src/Value/Queue.antt =====
-- The client's queue as `reader` of server/server_core.rs serves it for one value.
use egui_states.Prelude.{
  ℕ, ◌+◌, ◌-◌, ◌<◌, ◌≡◌, ◌⊎◌, refl, ◌∙◌, Bytes, Bool, List, [], ◌∷◌, ◌++◌, arith,
}
use egui_states.Value.{Value, update_value, acknowledge}
use egui_states.Value.Client.{ChannelMessage, value, signal, message, ack}
use egui_states.Value.Link.{serve, serve_all, acks}

pub serve_ack : (v : Value) (id : ℕ) → serve v (ack id) ≡ record v { pending = v.pending - 1 }
unfolding serve acknowledge
serve_ack v id = ground arith

serve_pending :
    (v : Value) (id type_id : ℕ) (s : Bool) (bytes : Bytes)
    → 0 < v.pending
    → serve v (value id type_id s bytes) ≡ v
unfolding serve update_value
serve_pending v id type_id s bytes h = ground arith

pub serve_settled :
    (v : Value) (id type_id : ℕ) (s : Bool) (bytes : Bytes)
    → v.pending ≡ 0
    → type_id ≡ v.type_id
    → serve v (value id type_id s bytes) ≡ record v { value = bytes }
unfolding serve update_value
serve_settled v id type_id s bytes h e = ground arith

pub serve-signal :
    (v : Value) (id type_id : ℕ) (bytes : Bytes)
    → (serve v (signal id type_id bytes)).value ≡ v.value
unfolding serve
serve-signal v id type_id bytes = refl

pub serve-message : (v : Value) (bytes : Bytes) → (serve v (message bytes)).value ≡ v.value
unfolding serve
serve-message v bytes = refl

pub serve_value_cases :
    (v : Value) (id type_id : ℕ) (s : Bool) (bytes : Bytes)
    → ((serve v (value id type_id s bytes)).value ≡ v.value)
      ⊎ ((serve v (value id type_id s bytes)).value ≡ bytes)
unfolding serve update_value
serve_value_cases v id type_id s bytes = ground arith

pub serve_type : (v : Value) (m : ChannelMessage) → (serve v m).type_id ≡ v.type_id
unfolding serve update_value acknowledge
serve_type v (ack id) = ground arith
serve_type v m = ground arith

pub serve_count : (v : Value) (m : ChannelMessage) → (serve v m).pending ≡ v.pending - acks (m ∷ [])
unfolding serve update_value acknowledge
serve_count v (ack id) = ground arith
serve_count v m = ground arith

pub serve_keeps : (v : Value) (m : ChannelMessage) → 0 < v.pending → (serve v m).value ≡ v.value
unfolding serve update_value acknowledge
serve_keeps v (ack id) h = ground arith
serve_keeps v m h = ground arith

pub acks-cons :
    (m : ChannelMessage) (ms : List ChannelMessage) → acks (m ∷ ms) ≡ acks (m ∷ []) + acks ms
acks-cons (ack id) ms = omega arith
acks-cons m ms = omega arith

pub acks-append : (ms ns : List ChannelMessage) → acks (ms ++ ns) ≡ acks ms + acks ns
acks-append [] ns = omega arith
acks-append (m ∷ ms) ns = omega (arith, acks-append ms ns, acks-cons m ms, acks-cons m (ms ++ ns))

pub serve_all-append :
    (v : Value) (ms : List ChannelMessage) (m : ChannelMessage)
    → serve_all v (ms ++ m ∷ []) ≡ serve (serve_all v ms) m
unfolding serve_all
serve_all-append v [] m = refl
serve_all-append v (n ∷ ms) m = serve_all-append (serve v n) ms m

pub serve_all_type : (v : Value) (ms : List ChannelMessage) → (serve_all v ms).type_id ≡ v.type_id
unfolding serve_all
serve_all_type v [] = refl
serve_all_type v (m ∷ ms) = serve_all_type (serve v m) ms ∙ serve_type v m

pub serve_all_count :
    (v : Value) (ms : List ChannelMessage) → (serve_all v ms).pending ≡ v.pending - acks ms
unfolding serve_all
serve_all_count v [] = omega arith
serve_all_count v (m ∷ ms) =
    omega (arith, serve_all_count (serve v m) ms, serve_count v m, acks-cons m ms)

-- With an acknowledgement still missing behind the queue, the value stays.
pub serve_all_keeps :
    (v : Value) (ms : List ChannelMessage) → acks ms < v.pending → (serve_all v ms).value ≡ v.value
unfolding serve_all
serve_all_keeps v [] h = refl
serve_all_keeps v (m ∷ ms) h =
    serve_all_keeps (serve v m) ms (omega (arith, serve_count v m, acks-cons m ms))
    ∙ serve_keeps v m (omega arith)
