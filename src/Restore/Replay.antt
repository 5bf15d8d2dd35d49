-- ===== src/Restore/Replay.antt =====
-- The walk of `restore` over receipts that have grown.
use nexum.Prelude.{
  ◌≡◌, refl, ap, ◌∙◌, String, Bool, true, false, Option, none, some, List, [], ◌∷◌, ◌++◌, ◌==◌,
  arith, if_rule, if◌then◌else◌,
}
use nexum.Std.{Std}
use nexum.Receipt.{Receipt, last_hash_from}
use nexum.Agreement.{Agreement}
use nexum.Identity.{Crypto}
use nexum.Operation.{Committed, Entries, Persist, get_entry}
use nexum.Restore
use nexum.Restore.{Progress, is_bad_entry, is_none, settle_turn}

-- The receipts that a turn passes over are there.
abbrev pub Follows : Bool → List Receipt → Type 0
Follows false rest = Unit {0}
Follows true [] = ⊥
Follows true (q ∷ rest) = Unit {0}

if_mono :
    {A : Type 0} (b : Bool) {x x' y y' : Option A} {v : A}
    → (x ≡ some v → x' ≡ some v)
    → (y ≡ some v → y' ≡ some v)
    → (if b then x else y) ≡ some v
    → (if b then x' else y') ≡ some v
if_mono true hx hy h = hx h
if_mono false hx hy h = hy h

Follows-cons : (skip : Bool) (q : Receipt) (rest : List Receipt) → Follows skip (q ∷ rest)
Follows-cons true q rest = tt
Follows-cons false q rest = tt

one_receipt-Follows :
    (o : Option Progress) (p' : Progress) (skip : Bool) (rest : List Receipt)
    → Restore.one_receipt o ≡ some (p', skip)
    → Follows skip rest
one_receipt-Follows none p' skip rest h = cc
one_receipt-Follows (some p) p' false rest h = tt
one_receipt-Follows (some p) p' true rest h = cc

module _ (std : Std) (crypto : Crypto) (persist : Persist) where
  settle_turn-append :
      (a : Agreement) (e : Committed) (q : Receipt) (rest more : List Receipt) (p : Progress)
      {v : Progress × Bool}
      → settle_turn a e q rest p ≡ some v
      → settle_turn a e q (rest ++ more) p ≡ some v
  unfolding settle_turn
  settle_turn-append a e q [] more p h = cc
  settle_turn-append a e q (next ∷ rest) more p h = h

  settle_turn-Follows :
      (a : Agreement) (e : Committed) (q : Receipt) (rest : List Receipt) (p p' : Progress)
      (skip : Bool)
      → settle_turn a e q rest p ≡ some (p', skip)
      → Follows skip rest
  unfolding settle_turn
  settle_turn-Follows a e q [] p p' skip h = cc
  settle_turn-Follows a e q (next ∷ rest) p p' skip h = Follows-cons skip next rest

  -- More receipts behind those that a turn has looked at change nothing.
  turn-append :
      (a : Agreement) (e : Committed) (q : Receipt) (rest more : List Receipt) (p : Progress)
      {v : Progress × Bool}
      → Restore.turn std crypto persist a e q rest p ≡ some v
      → Restore.turn std crypto persist a e q (rest ++ more) p ≡ some v
  unfolding Restore.turn
  turn-append a e q rest more p =
      let act = e.operation.command.action in
      if_mono (act == "lock") (λ h. h)
        (if_mono (act == "agree") (λ h. h)
          (if_mono (act == "settle") (settle_turn-append a e q rest more p) (λ h. h)))

  turn-Follows :
      (a : Agreement) (e : Committed) (q : Receipt) (rest : List Receipt) (p p' : Progress)
      (skip : Bool)
      → Restore.turn std crypto persist a e q rest p ≡ some (p', skip)
      → Follows skip rest
  unfolding Restore.turn
  turn-Follows a e q rest p p' skip =
      let P : Option (Progress × Bool) → Type 0 = λ o. o ≡ some (p', skip) → Follows skip rest in
      let act = e.operation.command.action in
      let one : (b : Bool) (o : Option Progress) → P (if b then none else Restore.one_receipt o) =
        λ b o. if_rule P b (λ h. cc) (one_receipt-Follows o p' skip rest) in
      if_rule P (act == "lock") (one _ _) (
        if_rule P (act == "agree") (one _ _) (
          if_rule P (act == "settle") (settle_turn-Follows a e q rest p p' skip) (
            if_rule P (act == "reject") (one _ _)
              (if_rule P (act == "expire") (one _ _) (λ h. cc)))))

  -- A turn looks at the parties of the agreement only.
  turn_same :
      (a a' : Agreement) (e : Committed) (q : Receipt) (rest : List Receipt) (p : Progress)
      → a'.buyer ≡ a.buyer
      → a'.seller ≡ a.seller
      → Restore.turn std crypto persist a' e q rest p ≡ Restore.turn std crypto persist a e q rest p
  unfolding Restore.turn settle_turn
  turn_same a a' e q [] p buyer seller =
      let f : String → String → Option (Progress × Bool) =
        λ b s. Restore.turn std crypto persist (record a { buyer = b; seller = s }) e q [] p in
      ap (λ b. f b a'.seller) buyer ∙ ap (f a.buyer) seller
  turn_same a a' e q (next ∷ rest) p buyer seller =
      let f : String → String → Option (Progress × Bool) = λ b s.
        Restore.turn std crypto persist (record a { buyer = b; seller = s }) e q (next ∷ rest) p in
      ap (λ b. f b a'.seller) buyer ∙ ap (f a.buyer) seller

  module _ (by_head by_head' : Entries Committed) (a a' : Agreement) (buyer : a'.buyer ≡ a.buyer)
      (seller : a'.seller ≡ a.seller)
      (grows : (h : String) (e : Committed)
        → get_entry h by_head ≡ some e
        → get_entry h by_head' ≡ some e)
      (more : List Receipt) where
    abbrev walk : Bool → String → Progress → List Receipt → Option Progress
    walk skip prev p rest = Restore.replay std crypto persist by_head a prev p skip rest

    abbrev walk' : Bool → String → Progress → List Receipt → Option Progress
    walk' skip prev p rest = Restore.replay std crypto persist by_head' a' prev p skip rest

    abbrev went : Receipt → List Receipt → Option (Progress × Bool) → Option Progress
    went q rest o = elim o [ none ↦ none | some (p', skip) ↦ walk skip q.hash p' rest ]

    abbrev went' : Receipt → List Receipt → Option (Progress × Bool) → Option Progress
    went' q rest o = elim o [ none ↦ none | some (p', skip) ↦ walk' skip q.hash p' rest ]

    abbrev met : Receipt → List Receipt → Progress → Option Committed → Option Progress
    met q rest p o = elim o [
      | none ↦ none
      | some e ↦ went q rest (Restore.turn std crypto persist a e q rest p)
    ]

    abbrev met' : Receipt → List Receipt → Progress → Option Committed → Option Progress
    met' q rest p o = elim o [
      | none ↦ none
      | some e ↦ went' q rest (Restore.turn std crypto persist a' e q rest p)
    ]

    -- The walk over the receipts that were there ends where it ended, and goes on over those behind.
    pub replay-append :
        (prev : String) (p : Progress) (skip : Bool) (rest : List Receipt) (p' : Progress)
        → Follows skip rest
        → walk skip prev p rest ≡ some p'
        → walk' skip prev p (rest ++ more) ≡ walk' false (last_hash_from prev rest) p' more
    unfolding Restore.replay
    replay-append prev p false [] p' follows h = ap (λ x. walk' false prev x more) (ground arith)
    replay-append prev p true [] p' follows h = absurd follows
    replay-append prev p true (q ∷ rest) p' follows h = replay-append q.hash p false rest p' tt h
    replay-append prev p false (q ∷ rest) p' follows h =
        found (get_entry prev by_head) refl h
          (λ p'' skip follows went. replay-append q.hash p'' skip rest p' follows went)
      where
        Later : Type 0
        Later =
            (p'' : Progress) (skip : Bool)
            → Follows skip rest
            → walk skip q.hash p'' rest ≡ some p'
            → walk' skip q.hash p'' (rest ++ more)
              ≡ walk' false (last_hash_from q.hash rest) p' more

        turned :
            (e : Committed) (o : Option (Progress × Bool))
            → Restore.turn std crypto persist a e q rest p ≡ o
            → went q rest o ≡ some p'
            → Later
            → went' q (rest ++ more) (Restore.turn std crypto persist a' e q (rest ++ more) p)
              ≡ walk' false (last_hash_from q.hash rest) p' more
        turned e none is h later = cc
        turned e (some (p'', skip)) is h later =
            ap (went' q (rest ++ more))
              (turn_same a a' e q (rest ++ more) p buyer seller ∙ turn-append a e q rest more p is)
            ∙ later p'' skip (turn-Follows a e q rest p p'' skip is) h

        found :
            (o : Option Committed)
            → get_entry prev by_head ≡ o
            → met q rest p o ≡ some p'
            → Later
            → met' q (rest ++ more) p (get_entry prev by_head')
              ≡ walk' false (last_hash_from q.hash rest) p' more
        found none is h later = cc
        found (some e) is h later =
            ap (met' q (rest ++ more) p) (grows prev e is)
            ∙ turned e (Restore.turn std crypto persist a e q rest p) refl h later
