-- ===== src/Transport/Handshake.antt =====
-- `check_handshake` of server/server_core.rs. `expected` is `PROTOCOL_VERSION` of lib.rs.
use Prim.Native.Nat.{Ordering}
use Prim.Native.String.{String, compare}
use text.Mathlib.Text.{is_eq}
use text.Mathlib.TextEquality.{path_by_compare}
use text.Mathlib.TextPositions.{compare_refl}
use egui_states.Prelude.{
  ℕ, ◌≡◌, ◌↔◌, refl, ap, sym, ◌∙◌, Bool, true, false, Option, none, some, ◌==◌, ==_to, ==_refl,
  if◌then◌else◌, Bool-cases, inl, inr,
}
use egui_states.Outcome.{Outcome, ok, err, ◌>>=◌, >>=-eq-ok}
use egui_states.Tables.Entries.{IsEquality}

pub record Handshake : Type 0 where
  pub version : Option ℕ
  pub token : Option String

-- The kinds of the error texts.
pub data HandshakeError : Type 0 where
  wrong_protocol wrong_version version_missing wrong_token token_missing : HandshakeError

abbrev Check : Type 0
Check = Outcome HandshakeError (Unit {0})

-- A field that the server may ask for.
unfoldable pub check_field :
    {A : Type 0} → (A → A → Bool) → HandshakeError → HandshakeError → Option A → Option A → Check
check_field equal wrong missing none given = ok tt
check_field equal wrong missing (some asked) none = err missing
check_field equal wrong missing (some asked) (some given) =
    if equal given asked then ok tt else err wrong

-- `==` of strings.
abbrev pub same_string : String → String → Bool
same_string s t = is_eq (compare s t)

module _ (expected : ℕ) where
  unfoldable pub check_handshake : Handshake → ℕ → Option ℕ → Option String → Check
  unfolding check_field
  check_handshake server protocol version token =
      if protocol == expected
      then (check_field ◌==◌ wrong_version version_missing server.version version >>= λ _.
          check_field same_string wrong_token token_missing server.token token)
      else err wrong_protocol

-- What is asked for is given.
abbrev pub Matches : {A : Type 0} → Option A → Option A → Type 0
Matches none given = Unit
Matches (some asked) given = given ≡ some asked

field_ok :
    {A : Type 0} (equal : A → A → Bool) (eq : IsEquality equal) (wrong missing : HandshakeError)
    (asked given : Option A)
    → (check_field equal wrong missing asked given ≡ ok tt) ↔ Matches asked given
unfolding check_field
field_ok equal eq wrong missing none given = (λ h. tt, λ h. refl)
field_ok equal eq wrong missing (some a) none = (λ h. cc, λ h. cc)
field_ok equal eq wrong missing (some a) (some b) = elim (Bool-cases (equal b a)) [
  | inl same ↦ rw same (λ h. ap some (eq.equal_to b a same), λ h. refl)
  | inr differ ↦ (
    λ h. cc,
    λ h.
        let e : b ≡ a = cc in
        let no : true ≡ false = sym (eq.equal_refl b) ∙ ap (equal b) e ∙ differ in cc,
  )
]

numbers-IsEquality : IsEquality (λ (a b : ℕ). a == b)
numbers-IsEquality = record { equal_refl = ==_refl; equal_to = ==_to }

to_eq : (o : Ordering) → is_eq o ≡ true → o ≡ Ordering.eq
to_eq Ordering.lt h = cc
to_eq Ordering.eq h = refl
to_eq Ordering.gt h = cc

strings-IsEquality : IsEquality same_string
strings-IsEquality = record {
  equal_refl = λ a. ap is_eq (compare_refl a);
  equal_to = λ a b h. path_by_compare a b (to_eq (compare a b) h);
}

-- A handshake is accepted exactly if its protocol is the expected one, and its version and its token
-- are those that the server asks for, where it asks.
pub check_handshake_ok :
    (expected : ℕ) (server : Handshake) (protocol : ℕ) (version : Option ℕ) (token : Option String)
    → (check_handshake expected server protocol version token ≡ ok tt)
      ↔ ((protocol ≡ expected) × Matches server.version version × Matches server.token token)
unfolding check_handshake
check_handshake_ok expected server protocol version token =
    let versions =
      field_ok ◌==◌ numbers-IsEquality wrong_version version_missing server.version version in
    let tokens =
      field_ok same_string strings-IsEquality wrong_token token_missing server.token token in
    elim (Bool-cases (protocol == expected)) [
      | inr differ ↦ (
        λ h. let no : err wrong_protocol ≡ ok tt = rw differ at h in cc,
        λ (e, f, g).
            let no : true ≡ false = sym (==_refl protocol) ∙ ap (λ k. protocol == k) e ∙ differ in
            cc,
      )
      | inl same ↦ rw same (
        λ h.
            let (a, first, second) =
              >>=-eq-ok (check_field ◌==◌ wrong_version version_missing server.version version) _
                h in
            (==_to protocol expected same, versions.0 first, tokens.0 second),
        λ (e, f, g). rw (versions.1 f) (tokens.1 g),
      )
    ]
