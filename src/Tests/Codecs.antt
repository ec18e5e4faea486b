-- ===== src/Tests/Codecs.antt =====
-- A codec that the hypotheses hold of: every field is one number. It knows the headers of single
-- arrays, values and lists, and refuses the others.
use egui_states.Prelude.{
  ℕ, ◌<◌, ◌≡◌, refl, subst, Bytes, Bool, true, false, Option, none, some, [], ◌∷◌, ◌++◌, ◌==◌,
  if◌then◌else◌, arith, length,
}
use egui_states.Protocol.DataType.{DataType, get_type_id, from_id, from_id-get_type_id}
use egui_states.Protocol.Headers.{
  TransportType, set, add, replace, DataHeader, all, start_batch, batch, end_batch, drain, clear,
  ServerHeader,
}
use egui_states.Protocol.Headers.{VecHeader}
use egui_states.Protocol.Codec.{Codec, IsLawful}

abbrev pub flag : Bool → ℕ
flag true = 1
flag false = 0

abbrev pub transport_of : ℕ → ℕ → ℕ → TransportType
transport_of kind a b = if kind == 0 then set a else (if kind == 1 then add a else replace a b)

abbrev pub full : DataType → TransportType → Bool → ℕ → Bytes
full t (set a) u n = get_type_id t ∷ 0 ∷ a ∷ 0 ∷ flag u ∷ n ∷ []
full t (add a) u n = get_type_id t ∷ 1 ∷ a ∷ 0 ∷ flag u ∷ n ∷ []
full t (replace a b) u n = get_type_id t ∷ 2 ∷ a ∷ b ∷ flag u ∷ n ∷ []

abbrev vec_kind : VecHeader → ℕ
vec_kind (VecHeader.all n) = 0
vec_kind (VecHeader.set n) = 1
vec_kind VecHeader.add = 2
vec_kind (VecHeader.remove n) = 3

abbrev vec_arg : VecHeader → ℕ
vec_arg (VecHeader.all n) = n
vec_arg (VecHeader.set n) = n
vec_arg VecHeader.add = 0
vec_arg (VecHeader.remove n) = n

abbrev vec_of : ℕ → ℕ → VecHeader
vec_of kind n =
    if kind == 0
    then VecHeader.all n
    else (if kind == 1
        then VecHeader.set n
        else (if kind == 2 then VecHeader.add else VecHeader.remove n))

vec_back : (h : VecHeader) → vec_of (vec_kind h) (vec_arg h) ≡ h
vec_back (VecHeader.all n) = refl
vec_back (VecHeader.set n) = refl
vec_back VecHeader.add = refl
vec_back (VecHeader.remove n) = refl

abbrev encode : ServerHeader → Option Bytes
encode (ServerHeader.data_array id (all t tr u n)) = some (0 ∷ id ∷ full t tr u n)
encode (ServerHeader.data_array id (start_batch m n)) = some (1 ∷ id ∷ m ∷ n ∷ [])
encode (ServerHeader.data_array id (batch n)) = some (2 ∷ id ∷ n ∷ [])
encode (ServerHeader.data_array id (end_batch t tr u n)) = some (3 ∷ id ∷ full t tr u n)
encode (ServerHeader.data_array id (drain i n u)) = some (4 ∷ id ∷ i ∷ n ∷ flag u ∷ [])
encode (ServerHeader.data_array id (clear u)) = some (5 ∷ id ∷ flag u ∷ [])
encode (ServerHeader.value id t u n) = some (6 ∷ id ∷ t ∷ flag u ∷ n ∷ [])
encode (ServerHeader.value_vec id t u h n) =
    some (7 ∷ id ∷ t ∷ flag u ∷ n ∷ vec_kind h ∷ vec_arg h ∷ [])
encode _ = none

abbrev Header : Type 0
Header = Option (ServerHeader × Bytes)

abbrev made :
    ℕ
    → (DataType → TransportType → Bool → ℕ → DataHeader)
    → Option DataType
    → TransportType
    → Bool
    → ℕ
    → Bytes
    → Header
made id mk none tr u n rest = none
made id mk (some t) tr u n rest = some (ServerHeader.data_array id (mk t tr u n), rest)

abbrev read_full : ℕ → (DataType → TransportType → Bool → ℕ → DataHeader) → Bytes → Header
read_full id mk (t ∷ k ∷ a ∷ b ∷ u ∷ n ∷ rest) =
    made id mk (from_id t) (transport_of k a b) (u == 1) n rest
read_full id mk _ = none

abbrev read_start : ℕ → Bytes → Header
read_start id (m ∷ n ∷ rest) = some (ServerHeader.data_array id (start_batch m n), rest)
read_start id _ = none

abbrev read_batch : ℕ → Bytes → Header
read_batch id (n ∷ rest) = some (ServerHeader.data_array id (batch n), rest)
read_batch id _ = none

abbrev read_drain : ℕ → Bytes → Header
read_drain id (i ∷ n ∷ u ∷ rest) = some (ServerHeader.data_array id (drain i n (u == 1)), rest)
read_drain id _ = none

abbrev read_clear : ℕ → Bytes → Header
read_clear id (u ∷ rest) = some (ServerHeader.data_array id (clear (u == 1)), rest)
read_clear id _ = none

abbrev read_value : ℕ → Bytes → Header
read_value id (t ∷ u ∷ n ∷ rest) = some (ServerHeader.value id t (u == 1) n, rest)
read_value id _ = none

abbrev read_vec : ℕ → Bytes → Header
read_vec id (t ∷ u ∷ n ∷ kind ∷ arg ∷ rest) =
    some (ServerHeader.value_vec id t (u == 1) (vec_of kind arg) n, rest)
read_vec id _ = none

abbrev take_from : Bytes → Header
take_from (k ∷ id ∷ rest) =
    if k == 0
    then read_full id all rest
    else (if k == 1
        then read_start id rest
        else (if k == 2
            then read_batch id rest
            else (if k == 3
                then read_full id end_batch rest
                else (if k == 4
                    then read_drain id rest
                    else (if k == 5
                        then read_clear id rest
                        else (if k == 6 then read_value id rest else read_vec id rest))))))
take_from _ = none

abbrev pub header_codec : Codec ServerHeader
header_codec = record { encode = encode; take_from = take_from }

pub flag_back : (u : Bool) → (flag u == 1) ≡ u
flag_back true = refl
flag_back false = refl

read_full-full :
    (id : ℕ) (mk : DataType → TransportType → Bool → ℕ → DataHeader) (t : DataType)
    (tr : TransportType) (u : Bool) (n : ℕ) (rest : Bytes)
    → read_full id mk (full t tr u n ++ rest)
      ≡ some (ServerHeader.data_array id (mk t tr u n), rest)
read_full-full id mk t (set a) u n rest = rw (from_id-get_type_id t, flag_back u) refl
read_full-full id mk t (add a) u n rest = rw (from_id-get_type_id t, flag_back u) refl
read_full-full id mk t (replace a b) u n rest = rw (from_id-get_type_id t, flag_back u) refl

known :
    (h : ServerHeader) (b rest : Bytes)
    → take_from (b ++ rest) ≡ some (h, rest)
    → (c : Bytes) → some b ≡ some c
    → take_from (c ++ rest) ≡ some (h, rest)
known h b rest e c same =
    let eq : b ≡ c = cc in subst (λ (x : Bytes). take_from (x ++ rest) ≡ some (h, rest)) eq e

take_from-encode :
    (h : ServerHeader) (b rest : Bytes) → encode h ≡ some b → take_from (b ++ rest) ≡ some (h, rest)
take_from-encode (ServerHeader.data_array id (all t tr u n)) b rest e =
    known _ (0 ∷ id ∷ full t tr u n) rest (read_full-full id all t tr u n rest) b e
take_from-encode (ServerHeader.data_array id (start_batch m n)) b rest e =
    known _ (1 ∷ id ∷ m ∷ n ∷ []) rest refl b e
take_from-encode (ServerHeader.data_array id (batch n)) b rest e =
    known _ (2 ∷ id ∷ n ∷ []) rest refl b e
take_from-encode (ServerHeader.data_array id (end_batch t tr u n)) b rest e =
    known _ (3 ∷ id ∷ full t tr u n) rest (read_full-full id end_batch t tr u n rest) b e
take_from-encode (ServerHeader.data_array id (drain i n u)) b rest e =
    known _ (4 ∷ id ∷ i ∷ n ∷ flag u ∷ []) rest (rw (flag_back u) refl) b e
take_from-encode (ServerHeader.data_array id (clear u)) b rest e =
    known _ (5 ∷ id ∷ flag u ∷ []) rest (rw (flag_back u) refl) b e
take_from-encode (ServerHeader.value id t u n) b rest e =
    known _ (6 ∷ id ∷ t ∷ flag u ∷ n ∷ []) rest (rw (flag_back u) refl) b e
take_from-encode (ServerHeader.value_vec id t u h n) b rest e =
    known _ (7 ∷ id ∷ t ∷ flag u ∷ n ∷ vec_kind h ∷ vec_arg h ∷ []) rest
      (rw (flag_back u, vec_back h) refl) b e
take_from-encode _ b rest e = cc

pub longer : (k : ℕ) (xs b : Bytes) → some (k ∷ xs) ≡ some b → 0 < length b
longer k xs b e = let eq : k ∷ xs ≡ b = cc in subst (λ (x : Bytes). 0 < length x) eq (omega arith)

encode_pos : (h : ServerHeader) (b : Bytes) → encode h ≡ some b → 0 < length b
encode_pos (ServerHeader.data_array id (all t tr u n)) b e = longer 0 _ b e
encode_pos (ServerHeader.data_array id (start_batch m n)) b e = longer 1 _ b e
encode_pos (ServerHeader.data_array id (batch n)) b e = longer 2 _ b e
encode_pos (ServerHeader.data_array id (end_batch t tr u n)) b e = longer 3 _ b e
encode_pos (ServerHeader.data_array id (drain i n u)) b e = longer 4 _ b e
encode_pos (ServerHeader.data_array id (clear u)) b e = longer 5 _ b e
encode_pos (ServerHeader.value id t u n) b e = longer 6 _ b e
encode_pos (ServerHeader.value_vec id t u h n) b e = longer 7 _ b e
encode_pos _ b e = cc

pub header_codec-IsLawful : IsLawful header_codec
header_codec-IsLawful = record { take_from-encode = take_from-encode; encode_pos = encode_pos }

-- A codec of numbers.
abbrev number_from : Bytes → Option (ℕ × Bytes)
number_from [] = none
number_from (n ∷ rest) = some (n, rest)

abbrev pub number_codec : Codec ℕ
number_codec = record { encode = λ n. some (n ∷ []); take_from = number_from }

pub number_codec-IsLawful : IsLawful number_codec
number_codec-IsLawful = record {
  take_from-encode = λ n b rest e.
      let eq : n ∷ [] ≡ b = cc in
      subst (λ (x : Bytes). number_from (x ++ rest) ≡ some (n, rest)) eq refl;
  encode_pos = λ n b e. longer n [] b e;
}
