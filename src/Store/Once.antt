-- ===== src/Store/Once.antt =====
-- One operation is carried out once, however often it is retried and whatever happens in between.
use nexum.Prelude.{
  ◌≡◌, ◌≢◌, refl, sym, ap, ◌∙◌, subst, String, Bool, true, Option, none, some, arith, eq_iff,
  eq_refl, if◌then◌else◌,
}
use nexum.Errors.{Error, ok, err}
use nexum.Std.{Std, Bytes, Time}
use nexum.Room.{Entropy}
use nexum.Identity.{Crypto}
use nexum.Contract.{Contract}
use nexum.Operation.{
  Operation, Answer, Committed, StoredContract, Persist, get_entry, operations_of, same_operation,
}
use nexum.Disk.{Disk, Faults, read, renamed}
use nexum.Disk.ReadBack.{Faithful, read-Decoded}
use nexum.Store
use nexum.Store.{Reply, concluded, answer_of, committed_record}
use nexum.Store.Rules.{write_rule}
use nexum.Store.ApplyRule.{Authentic, apply_rule}
use nexum.Store.Kept.{Holds, Kept, synced-Kept, get_entry-put_entry}
use nexum.Store.Events.{Draws, Events}
use nexum.Store.Recorded.{Sealed-Holds, read_entry, read_version, Events-Kept}

pub same_operation_sound : (a b : Operation) → same_operation a b ≡ true → a ≡ b
same_operation_sound a b h = ground (
  arith,
  eq_iff a.id b.id,
  eq_iff a.command.terms b.command.terms,
  eq_iff a.command.head b.command.head,
  eq_iff a.command.action b.command.action,
  eq_iff a.command.evidence b.command.evidence,
)

module _ (persist : Persist) (id : String) (op : Operation) where
  -- An answer that is an entry of the file, for good.
  abbrev pub Recorded : Reply Answer → Type 0
  Recorded (err e, d) = Unit {0}
  Recorded (ok ans, d) =
      (e : Committed) × Kept persist id op.id e d × (e.operation ≡ op) × (e.answer ≡ ans)

  -- An answer from the file, which stays as it is.
  abbrev pub Repeats : Committed → Disk → Reply Answer → Type 0
  Repeats e d (err x, d') = (d'.visible ≡ d.visible)
  Repeats e d (ok ans, d') = (d'.visible ≡ d.visible) × (e.answer ≡ ans) × (e.operation ≡ op)

module _ (std : Std) (crypto : Crypto) (persist : Persist) where
  decoded-Holds :
      (f : Faults) (id key : String) (e : Committed) (d : Disk) (r : StoredContract) (c : Contract)
      → read std crypto persist f id d ≡ ok (r, c)
      → get_entry key (operations_of r) ≡ some e
      → Holds persist id key e (d.visible id)
  decoded-Holds f id key e d r c found entry =
      let (bytes, is, decoded) = read-Decoded std crypto persist r c f id d found in
      record { bytes = bytes; stored = r; is_content = is; is_stored = decoded; entry = entry }

  pub answered-Recorded :
      Faithful persist
      → (f : Faults) (id : String) (op : Operation) (signature : Bytes) (rnd : Entropy) (now : Time)
        (d : Disk)
      → Draws persist f
      → Recorded persist id op (Store.apply std crypto persist f id op signature rnd now d)
  answered-Recorded faithful f id op signature rnd now d draws =
      apply_rule std crypto persist f id op signature rnd now d (Recorded persist id op) (λ e. tt)
        (λ r c prior authentic known same. (
          tt,
          (
            prior,
            synced-Kept persist id op.id prior d
                (decoded-Holds f id op.id prior d r c authentic.found known),
            same_operation_sound prior.operation op same,
            refl,
          ),
        ))
        (λ r c c' authentic fresh tried.
          let ans = answer_of id op c' in
          let e : Committed = record { operation = op; signature = signature; answer = ans } in
          let next = committed_record r id op signature c' in
          write_rule persist (λ out. Recorded persist id op (concluded ans out)) f id next d
            (λ x. tt)
            (λ content sealed.
              let holds : Holds persist id op.id e ((renamed id content d).visible id) =
                subst
                  (λ (b : Bool).
                    Holds persist id op.id e (if b then some content else d.visible id))
                  (sym (eq_refl id))
                  (Sealed-Holds persist faithful f id op.id e next content draws sealed
                    (read_version std crypto persist f id d r c authentic.found)
                    (get_entry-put_entry op.id e (operations_of r))) in
              (
                tt,
                tt,
                (e, synced-Kept persist id op.id e (renamed id content d) holds, refl, refl),
              )))

  Kept-Repeats :
      (f : Faults) (id key : String) (e : Committed) (op : Operation) (signature : Bytes)
      (rnd : Entropy) (now : Time) (d : Disk)
      → Kept persist id key e d
      → op.id ≡ key
      → Repeats persist id op e d (Store.apply std crypto persist f id op signature rnd now d)
  Kept-Repeats f id key e op signature rnd now d kept named =
      apply_rule std crypto persist f id op signature rnd now d (Repeats persist id op e d)
        (λ x. refl)
        (λ r c prior authentic known same.
          let one : prior ≡ e = only known (has r c authentic) in
          (
            refl,
            (
              refl,
              ap (λ x. x.answer) (sym one),
              ap (λ x. x.operation) (sym one) ∙ same_operation_sound prior.operation op same,
            ),
          ))
        (λ r c c' authentic fresh tried. absurd (none-ne fresh (has r c authentic)))
    where
      has :
          (r : StoredContract) (c : Contract)
          → Authentic std crypto persist f id op signature d r c
          → get_entry op.id (operations_of r) ≡ some e
      has r c authentic =
          read_entry std crypto persist f id op.id e d r c
            (subst (λ k. Kept persist id k e d) (sym named) kept) authentic.found

      only : {o : Option Committed} {a b : Committed} → o ≡ some a → o ≡ some b → a ≡ b
      only h h' = cc

      none-ne : {o : Option Committed} {a : Committed} → o ≡ none → o ≢ some a
      none-ne h h' = cc

module _ (std : Std) (crypto : Crypto) (persist : Persist) (faithful : Faithful persist) where
  -- What any call under the ID of an operation does, once the operation has been answered.
  later-Repeats :
      (f f' : Faults) (id : String) (op op' : Operation) (signature signature' : Bytes)
      (rnd rnd' : Entropy) (now now' : Time) (d d' : Disk) {d'' : Disk} (ans : Answer)
      → Draws persist f
      → Store.apply std crypto persist f id op signature rnd now d ≡ (ok ans, d')
      → Events std crypto persist d' d''
      → op'.id ≡ op.id
      → (e : Committed) × Repeats persist id op' e d''
          (Store.apply std crypto persist f' id op' signature' rnd' now' d'')
        × (e.operation ≡ op)
        × (e.answer ≡ ans)
  later-Repeats f f' id op op' signature signature' rnd rnd' now now' d d' ans draws first between
        named =
      let (e, kept, is_op, is_answer) =
        subst (Recorded persist id op) first
          (answered-Recorded std crypto persist faithful f id op signature rnd now d draws) in
      (
        e,
        Kept-Repeats std crypto persist f' id op.id e op' signature' rnd' now' _
            (Events-Kept std crypto persist faithful id op.id e d' kept between) named,
        is_op,
        is_answer,
      )

  -- An operation that `Apply` has answered is not carried out again. Whatever calls and crashes come
  -- between, each later answer of `Apply` under the same operation ID is of the same operation, with the
  -- same result, whichever signature and time it is called with, and leaves every file as it is. It is
  -- assumed that JSON and the encryption read back what they wrote and that a nonce has its length.
  pub exactly_once :
      (f f' : Faults) (id : String) (op op' : Operation) (signature signature' : Bytes)
      (rnd rnd' : Entropy) (now now' : Time) (d d' d'' d''' : Disk) (ans ans' : Answer)
      → Draws persist f
      → Store.apply std crypto persist f id op signature rnd now d ≡ (ok ans, d')
      → Events std crypto persist d' d''
      → op'.id ≡ op.id
      → Store.apply std crypto persist f' id op' signature' rnd' now' d'' ≡ (ok ans', d''')
      → (op' ≡ op) × (ans' ≡ ans) × (d'''.visible ≡ d''.visible)
  exactly_once f f' id op op' signature signature' rnd rnd' now now' d d' d'' d''' ans ans' draws
        first between named again =
      let (e, repeats, is_op, is_answer) =
        later-Repeats f f' id op op' signature signature' rnd rnd' now now' d d' ans draws first
          between named in
      let (same, answer', op_is) = subst (Repeats persist id op' e d'') again repeats in
      (sym op_is ∙ is_op, sym answer' ∙ is_answer, same)

  -- Once `Apply` has answered an operation, it answers an error to any other operation under the same
  -- operation ID, whatever calls and crashes come between, and leaves every file as it is. It is assumed
  -- that JSON and the encryption read back what they wrote and that a nonce has its length.
  pub reused_id_refused :
      (f f' : Faults) (id : String) (op op' : Operation) (signature signature' : Bytes)
      (rnd rnd' : Entropy) (now now' : Time) (d d' d'' : Disk) (ans : Answer)
      → Draws persist f
      → Store.apply std crypto persist f id op signature rnd now d ≡ (ok ans, d')
      → Events std crypto persist d' d''
      → op'.id ≡ op.id
      → op' ≢ op
      → (e : Error) × (d''' : Disk) × (Store.apply std crypto persist f' id op' signature' rnd' now'
            d''
          ≡ (err e, d'''))
        × (d'''.visible ≡ d''.visible)
  reused_id_refused f f' id op op' signature signature' rnd rnd' now now' d d' d'' ans draws first
        between named other =
      let (e, repeats, is_op, is_answer) =
        later-Repeats f f' id op op' signature signature' rnd rnd' now now' d d' ans draws first
          between named in
      refused e (Store.apply std crypto persist f' id op' signature' rnd' now' d'') repeats is_op
    where
      refused :
          (e : Committed) (out : Reply Answer)
          → Repeats persist id op' e d'' out
          → e.operation ≡ op
          → (x : Error) × (d''' : Disk) × (out ≡ (err x, d''')) × (d'''.visible ≡ d''.visible)
      refused e (err x, d''') same is_op = (x, d''', refl, same)
      refused e (ok a, d''') (same, answer', op_is) is_op = absurd (other (sym op_is ∙ is_op))
