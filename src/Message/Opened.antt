-- ===== src/Message/Opened.antt =====
-- internal/message/crypto.go: what is asked of the ciphers, and decryption behind encryption.
use nexum.Prelude.{
  ◌+◌, ◌≡◌, refl, ap, ◌∙◌, subst, String, true, false, not, Option, none, some, ◌++◌, length,
  length-append, nat_eq, ltb, take, take-append, arith, if_cases, if◌then◌else◌, Bool,
}
use nexum.Errors.{Result, ok, err, io_error, required, required_cases, Error, bind, guarded}
use nexum.Std.{Bytes, drop}
use nexum.Std.Equality.{drop-append}
use nexum.Identity.{Crypto}
use nexum.Message.Deciding.{Keys}
use nexum.Message.Sealing
use nexum.Message.Sealing.{Ciphers}

-- AES-GCM opens what it sealed, which is longer by its tag; a text of 32 bytes is a public key of X25519,
-- whose shared secrets agree; and an HPKE receiver opens what the sender to its key sealed.
pub record Reliable (crypto : Crypto) (keys : Keys) (c : Ciphers) : Type 0 where
  pub gcm_opens :
      (key nonce text : Bytes) (aad : String)
      → length nonce ≡ c.nonce_size
      → c.gcm_open key nonce (c.gcm_seal key nonce text aad) aad ≡ some text
  pub gcm_width :
      (key nonce text : Bytes) (aad : String)
      → length (c.gcm_seal key nonce text aad) ≡ length text + c.overhead
  pub public_width : (key : Bytes) → length key ≡ 32 → crypto.is_public_key key ≡ true
  pub secrets_agree :
      (mine theirs secret : Bytes)
      → crypto.is_private_key theirs ≡ true
      → c.ecdh mine (keys.encryption_public theirs) ≡ some secret
      → c.ecdh theirs (keys.encryption_public mine) ≡ some secret
  pub hpke_private : (key : Bytes) → crypto.is_private_key key ≡ true → c.is_hpke_private key ≡ true
  pub hpke_opens :
      (private : Bytes) (info : String) (seed : Option Bytes) (enc : Bytes)
      (sealer : Bytes → String → Option Bytes)
      → crypto.is_private_key private ≡ true
      → c.hpke_send (keys.encryption_public private) info seed ≡ some (enc, sealer)
      → (opener : Bytes → String → Option Bytes) × (c.hpke_receive private info enc ≡ some opener)
        × ((key : Bytes) (context : String) (wrapped : Bytes)
            → sealer key context ≡ some wrapped
            → opener wrapped context ≡ some key)

-- A nonce of the cipher's size, where one is drawn.
abbrev pub Sized : Ciphers → Option Bytes → Type 0
Sized c draw = (nonce : Bytes) → draw ≡ some nonce → length nonce ≡ c.nonce_size

-- A required value that is there.
pub required_there :
    {A B : Type 0} (e : Error) (o : Option A) (f : A → Result B) {a : A} {b : Result B}
    → o ≡ some a
    → f a ≡ b
    → required e o f ≡ b
required_there e o f h k = ap (λ x. required e x f) h ∙ k

-- The rest behind a test that is passed.
pub test_passed :
    {A : Type 0} (b : Bool) (x : A) {y z : A} → b ≡ false → y ≡ z → (if b then x else y) ≡ z
test_passed false x h k = k
test_passed true x h k = cc

pub test_taken :
    {A : Type 0} (b : Bool) (y : A) {x z : A} → b ≡ true → x ≡ z → (if b then x else y) ≡ z
test_taken true y h k = k
test_taken false y h k = cc

-- The rest behind a call, and behind a check, that answers no error.
pub bind_there :
    {A B : Type 0} (m : Result A) (f : A → Result B) {a : A} {b : Result B}
    → m ≡ ok a
    → f a ≡ b
    → bind m f ≡ b
bind_there m f h k = ap (λ x. bind x f) h ∙ k

pub guarded_there :
    {A : Type 0} (o : Option Error) (rest : Result A) {b : Result A}
    → o ≡ none
    → rest ≡ b
    → guarded o rest ≡ b
guarded_there o rest h k = ap (λ x. guarded x rest) h ∙ k

module _ (crypto : Crypto) (keys : Keys) (c : Ciphers) (reliable : Reliable crypto keys c) where
  abbrev pub ReadsBack : Bytes → Bytes → String → Result Bytes → Type 0
  ReadsBack key text aad (ok content) = Sealing.decrypt c key content aad ≡ ok text
  ReadsBack key text aad (err e) = Unit

  -- What is encrypted is decrypted.
  pub encrypt-ReadsBack :
      (key text : Bytes) (aad : String) (nonce : Option Bytes)
      → Sized c nonce
      → ReadsBack key text aad (Sealing.encrypt c key text aad nonce)
  unfolding Sealing.encrypt Sealing.decrypt
  encrypt-ReadsBack key text aad nonce sized =
      if_cases (ReadsBack key text aad) (not (nat_eq (length key) 32)) (λ bad. tt)
        (λ wide. required_cases (ReadsBack key text aad) io_error nonce _ tt (λ n drawn.
          let sealed = c.gcm_seal key n text aad in
          let total : length (n ++ sealed) ≡ length n + length sealed = length-append n sealed in
          let front : take c.nonce_size (n ++ sealed) ≡ n =
            subst (λ k. take k (n ++ sealed) ≡ n) (sized n drawn) (take-append n sealed) in
          let back : drop c.nonce_size (n ++ sealed) ≡ sealed =
            subst (λ k. drop k (n ++ sealed) ≡ sealed) (sized n drawn) (drop-append n sealed) in
          test_passed (not (nat_eq (length key) 32)) _ wide (
            test_passed (ltb (length (n ++ sealed)) (c.nonce_size + c.overhead)) _
              (ground (arith, total, sized n drawn, reliable.gcm_width key n text aad))
              (required_there _
                (c.gcm_open key (take c.nonce_size (n ++ sealed)) (drop c.nonce_size (n ++ sealed))
                  aad)
                _
                (ap (λ a. c.gcm_open key a (drop c.nonce_size (n ++ sealed)) aad) front
                  ∙ ap (λ b. c.gcm_open key n b aad) back
                  ∙ reliable.gcm_opens key n text aad (sized n drawn))
                refl))))
