-- ===== src/Message/Passing.antt =====
-- What a verification that answers no error has passed.
use nexum.Prelude.{
  ◌≡◌, ◌≢◌, refl, sym, subst, String, Bool, true, false, Option, none, some, arith, if◌then◌else◌,
  eq_iff,
}
use nexum.Errors.{Error, panicked}
use nexum.Std.{Std, Bytes}
use nexum.Identity.{Public, Crypto}
use nexum.Envelope.{Wire, first_error, also, naming, names_other}
use nexum.Message.{check_signature}

pub failure-ne-none : (e : Error) → some e ≢ none
failure-ne-none e h = ground (arith, h)

pub passes : {a b : Option Error} → a ≡ none → b ≡ none → first_error a b ≡ none
passes {a} {b} h k = subst (λ o. first_error o b ≡ none) (sym h) k

pub passed_first : (a b : Option Error) → first_error a b ≡ none → a ≡ none
passed_first none b h = refl
passed_first (some e) b h = absurd (failure-ne-none e h)

pub passed_rest : (a : Option Error) {b : Option Error} → first_error a b ≡ none → b ≡ none
passed_rest none h = h
passed_rest (some e) h = absurd (failure-ne-none e h)

pub passed_if :
    (b : Bool) (e : Error) {rest : Option Error}
    → (if b then some e else rest) ≡ none
    → (b ≡ false) × (rest ≡ none)
passed_if true e h = absurd (failure-ne-none e h)
passed_if false e h = (refl, h)

pub passed_also : (a b : Option Error) → also a b ≡ none → (a ≡ none) × (b ≡ none)
passed_also none b h = (refl, h)
passed_also (some e) b h = absurd (failure-ne-none _ h)

-- A hash that has been named.
pub passed_naming :
    (s : String) (hash : Option String) (rest : Option Error)
    → naming (names_other s hash) rest ≡ none
    → (hash ≡ some s) × (rest ≡ none)
passed_naming s none rest h = absurd (failure-ne-none panicked h)
passed_naming s (some k) rest h = ground (arith, eq_iff s k)

pub passed_signature :
    (std : Std) (crypto : Crypto) (w : Wire) (p : Public) (text : Option String) (signature : Bytes)
    → check_signature std crypto w p text signature ≡ none
    → (t : String) × (text ≡ some t) × (crypto.ed25519_verify p.signing t signature ≡ true)
unfolding check_signature
passed_signature std crypto w p none signature h = absurd (ground (arith, h))
passed_signature std crypto w p (some t) signature h = (t, refl, ground (arith, h))
