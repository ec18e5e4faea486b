-- ===== src/Tests/Keyed.antt =====
-- Codecs that the hypotheses hold of: one for whole arrays of collections, whole take arrays, and maps, one
-- for the client's values and acknowledgements. They refuse the other headers.
use egui_states.Prelude.{
  ℕ, ◌<◌, ◌≡◌, refl, subst, Bytes, Option, none, some, [], ◌∷◌, ◌++◌, ◌==◌, if◌then◌else◌, length,
}
use egui_states.Protocol.DataType.{DataType, get_type_id, from_id, from_id-get_type_id}
use egui_states.Protocol.Headers.{
  set, add, replace, DataHeader, DataTakeHeader, MultiDataHeader, MapHeader, DataMultiTakeHeader,
  ServerHeader, ClientHeader,
}
use egui_states.Protocol.Codec.{Codec, IsLawful}
use egui_states.Tests.Codecs.{flag, transport_of, full, flag_back, longer}

abbrev map_kind : MapHeader → ℕ
map_kind (MapHeader.all n) = 0
map_kind MapHeader.set = 1
map_kind MapHeader.remove = 2

abbrev map_arg : MapHeader → ℕ
map_arg (MapHeader.all n) = n
map_arg MapHeader.set = 0
map_arg MapHeader.remove = 0

abbrev map_of : ℕ → ℕ → MapHeader
map_of kind n =
    if kind == 0 then MapHeader.all n else (if kind == 1 then MapHeader.set else MapHeader.remove)

map_back : (h : MapHeader) → map_of (map_kind h) (map_arg h) ≡ h
map_back (MapHeader.all n) = refl
map_back MapHeader.set = refl
map_back MapHeader.remove = refl

abbrev encode : ServerHeader → Option Bytes
encode (ServerHeader.multi_data id (MultiDataHeader.modify k (DataHeader.all t tr u n))) =
    some (0 ∷ id ∷ k ∷ full t tr u n)
encode (ServerHeader.data_take id (DataTakeHeader.all t k u n) b) =
    some (1 ∷ id ∷ get_type_id t ∷ k ∷ flag u ∷ n ∷ flag b ∷ [])
encode
      (ServerHeader.data_multi_take id
        (DataMultiTakeHeader.modify j (DataTakeHeader.all t k u n) b)) =
    some (2 ∷ id ∷ j ∷ get_type_id t ∷ k ∷ flag u ∷ n ∷ flag b ∷ [])
encode (ServerHeader.value_map id t u h n) =
    some (3 ∷ id ∷ t ∷ flag u ∷ n ∷ map_kind h ∷ map_arg h ∷ [])
encode _ = none

abbrev Header : Type 0
Header = Option (ServerHeader × Bytes)

abbrev with_type : (DataType → ServerHeader) → Bytes → Option DataType → Header
with_type make rest none = none
with_type make rest (some t) = some (make t, rest)

abbrev read_multi : ℕ → Bytes → Header
read_multi id (j ∷ t ∷ k ∷ a ∷ b ∷ u ∷ n ∷ rest) =
    with_type
      (λ ty.
        ServerHeader.multi_data id
          (MultiDataHeader.modify j (DataHeader.all ty (transport_of k a b) (u == 1) n)))
      rest (from_id t)
read_multi id _ = none

abbrev read_take : ℕ → Bytes → Header
read_take id (t ∷ k ∷ u ∷ n ∷ b ∷ rest) =
    with_type (λ ty. ServerHeader.data_take id (DataTakeHeader.all ty k (u == 1) n) (b == 1)) rest
      (from_id t)
read_take id _ = none

abbrev read_multi_take : ℕ → Bytes → Header
read_multi_take id (j ∷ t ∷ k ∷ u ∷ n ∷ b ∷ rest) =
    with_type
      (λ ty.
        ServerHeader.data_multi_take id
          (DataMultiTakeHeader.modify j (DataTakeHeader.all ty k (u == 1) n) (b == 1)))
      rest (from_id t)
read_multi_take id _ = none

abbrev read_map : ℕ → Bytes → Header
read_map id (t ∷ u ∷ n ∷ kind ∷ arg ∷ rest) =
    some (ServerHeader.value_map id t (u == 1) (map_of kind arg) n, rest)
read_map id _ = none

abbrev take_from : Bytes → Header
take_from (k ∷ id ∷ rest) =
    if k == 0
    then read_multi id rest
    else (if k == 1
        then read_take id rest
        else (if k == 2 then read_multi_take id rest else read_map id rest))
take_from _ = none

abbrev pub keyed_codec : Codec ServerHeader
keyed_codec = record { encode = encode; take_from = take_from }

known :
    {H : Type 0} (read : Bytes → Option (H × Bytes)) (h : H) (b rest : Bytes)
    → read (b ++ rest) ≡ some (h, rest)
    → (c : Bytes) → some b ≡ some c
    → read (c ++ rest) ≡ some (h, rest)
known read h b rest e c same =
    let eq : b ≡ c = cc in subst (λ (x : Bytes). read (x ++ rest) ≡ some (h, rest)) eq e

take_from-encode :
    (h : ServerHeader) (b rest : Bytes) → encode h ≡ some b → take_from (b ++ rest) ≡ some (h, rest)
take_from-encode
      (ServerHeader.multi_data id (MultiDataHeader.modify k (DataHeader.all t (set a) u n))) b rest
      e =
    known take_from _ (0 ∷ id ∷ k ∷ full t (set a) u n) rest
      (rw (from_id-get_type_id t, flag_back u) refl) b e
take_from-encode
      (ServerHeader.multi_data id (MultiDataHeader.modify k (DataHeader.all t (add a) u n))) b rest
      e =
    known take_from _ (0 ∷ id ∷ k ∷ full t (add a) u n) rest
      (rw (from_id-get_type_id t, flag_back u) refl) b e
take_from-encode
      (ServerHeader.multi_data id (MultiDataHeader.modify k (DataHeader.all t (replace a c) u n))) b
      rest e =
    known take_from _ (0 ∷ id ∷ k ∷ full t (replace a c) u n) rest
      (rw (from_id-get_type_id t, flag_back u) refl) b e
take_from-encode (ServerHeader.data_take id (DataTakeHeader.all t k u n) x) b rest e =
    known take_from _ (1 ∷ id ∷ get_type_id t ∷ k ∷ flag u ∷ n ∷ flag x ∷ []) rest
      (rw (from_id-get_type_id t, flag_back u, flag_back x) refl) b e
take_from-encode
      (ServerHeader.data_multi_take id
        (DataMultiTakeHeader.modify j (DataTakeHeader.all t k u n) x))
      b rest e =
    known take_from _ (2 ∷ id ∷ j ∷ get_type_id t ∷ k ∷ flag u ∷ n ∷ flag x ∷ []) rest
      (rw (from_id-get_type_id t, flag_back u, flag_back x) refl) b e
take_from-encode (ServerHeader.value_map id t u h n) b rest e =
    known take_from _ (3 ∷ id ∷ t ∷ flag u ∷ n ∷ map_kind h ∷ map_arg h ∷ []) rest
      (rw (flag_back u, map_back h) refl) b e
take_from-encode _ b rest e = cc

encode_pos : (h : ServerHeader) (b : Bytes) → encode h ≡ some b → 0 < length b
encode_pos (ServerHeader.multi_data id (MultiDataHeader.modify k (DataHeader.all t tr u n))) b e =
    longer 0 _ b e
encode_pos (ServerHeader.data_take id (DataTakeHeader.all t k u n) x) b e = longer 1 _ b e
encode_pos
      (ServerHeader.data_multi_take id
        (DataMultiTakeHeader.modify j (DataTakeHeader.all t k u n) x))
      b e =
    longer 2 _ b e
encode_pos (ServerHeader.value_map id t u h n) b e = longer 3 _ b e
encode_pos _ b e = cc

pub keyed_codec-IsLawful : IsLawful keyed_codec
keyed_codec-IsLawful = record { take_from-encode = take_from-encode; encode_pos = encode_pos }

abbrev client_encode : ClientHeader → Option Bytes
client_encode (ClientHeader.ack id) = some (0 ∷ id ∷ [])
client_encode (ClientHeader.value id t s n) = some (1 ∷ id ∷ t ∷ flag s ∷ n ∷ [])
client_encode _ = none

abbrev read_value : ℕ → Bytes → Option (ClientHeader × Bytes)
read_value id (t ∷ s ∷ n ∷ rest) = some (ClientHeader.value id t (s == 1) n, rest)
read_value id _ = none

abbrev client_take : Bytes → Option (ClientHeader × Bytes)
client_take (k ∷ id ∷ rest) =
    if k == 0 then some (ClientHeader.ack id, rest) else read_value id rest
client_take _ = none

abbrev pub client_codec : Codec ClientHeader
client_codec = record { encode = client_encode; take_from = client_take }

client_take-encode :
    (h : ClientHeader) (b rest : Bytes)
    → client_encode h ≡ some b
    → client_take (b ++ rest) ≡ some (h, rest)
client_take-encode (ClientHeader.ack id) b rest e = known client_take _ (0 ∷ id ∷ []) rest refl b e
client_take-encode (ClientHeader.value id t s n) b rest e =
    known client_take _ (1 ∷ id ∷ t ∷ flag s ∷ n ∷ []) rest (rw (flag_back s) refl) b e
client_take-encode _ b rest e = cc

client_encode_pos : (h : ClientHeader) (b : Bytes) → client_encode h ≡ some b → 0 < length b
client_encode_pos (ClientHeader.ack id) b e = longer 0 _ b e
client_encode_pos (ClientHeader.value id t s n) b e = longer 1 _ b e
client_encode_pos _ b e = cc

pub client_codec-IsLawful : IsLawful client_codec
client_codec-IsLawful = record {
  take_from-encode = client_take-encode;
  encode_pos = client_encode_pos;
}
