-- ===== src/Store/Register.antt =====
-- What a store promises of its operations: a register of results that is written once at each operation
-- ID of each contract; and that `Apply` implements it.
use nexum.Prelude.{
  ◌≡◌, refl, sym, ap, ◌∙◌, subst, String, Bool, true, false, ◌&&◌, Option, none, some, [], ◌∷◌,
  ◌==◌, arith, eq_iff, if◌then◌else◌,
}
use nexum.Errors.{Error, Result, ok, err, commit_uncertain}
use nexum.Std.{Std, Bytes, Time}
use nexum.Room.{Entropy}
use nexum.Identity.{Crypto}
use nexum.Contract.{Contract}
use nexum.Operation.{
  Operation, Answer, Committed, Entries, StoredContract, Persist, get_entry, put_entry,
  operations_of,
}
use nexum.Disk
use nexum.Disk.{Disk, Faults, read, renamed, synced}
use nexum.Disk.ReadBack.{Faithful, decode-file_content, read-Decoded}
use nexum.Store
use nexum.Store.{Reply, concluded, answer_of, committed_record}
use nexum.Store.Rules.{Sealed, write_rule}
use nexum.Store.ApplyRule.{apply_rule}
use nexum.Store.Kept.{same_text}
use nexum.Store.Events.{Draws}
use nexum.Store.Recorded.{read_version}
use nexum.Store.Once.{same_operation_sound}

-- By the id of the contract and that of the operation.
abbrev pub Register : Type 0
Register = String → String → Option Committed

abbrev pub Unchanged : Register → Register → Type 0
Unchanged before after = (id key : String) → after id key ≡ before id key

abbrev pub Adds : Register → String → String → Committed → Register → Type 0
Adds before id key e after =
    (before id key ≡ none)
    × ((id' key' : String)
        → after id' key' ≡ (if id == id' && key == key' then some e else before id' key'))

-- What an operation on a contract may answer, and the register afterwards: a refusal, the result of the
-- entry that is there, or a new entry, which may be in doubt.
pub data Registers (before : Register) (id : String) (op : Operation)
    : Result Answer → Register → Type 0 where
  refuses :
      {after : Register} (e : Error) → Unchanged before after → Registers before id op (err e) after
  repeats :
      {after : Register} (e : Committed)
      → before id op.id ≡ some e
      → e.operation ≡ op
      → Unchanged before after
      → Registers before id op (ok e.answer) after
  registers :
      {after : Register} (e : Committed)
      → e.operation ≡ op
      → Adds before id op.id e after
      → Registers before id op (ok e.answer) after
  doubts :
      {after : Register} (e : Committed)
      → e.operation ≡ op
      → Adds before id op.id e after
      → Registers before id op (err commit_uncertain) after

get_entry_after :
    (key key' : String) (v : Committed) (es : Entries Committed)
    → get_entry key' (put_entry key v es) ≡ (if key == key' then some v else get_entry key' es)
unfolding get_entry put_entry
get_entry_after key key' v [] = ground arith
get_entry_after key key' v ((k, w) ∷ rest) =
    ground (arith, get_entry_after key key' v rest, eq_iff k key, eq_iff k key', eq_iff key key')

module _ (persist : Persist) where
  -- The operations of the file of a contract.
  unfoldable pub entries_in : String → Option Bytes → Entries Committed
  entries_in id none = []
  entries_in id (some content) = elim (Disk.decode persist id content) [
    | err e ↦ []
    | ok r ↦ operations_of r
  ]

  abbrev pub registered : Disk → Register
  registered d id key = get_entry key (entries_in id (d.visible id))

  entries_decoded :
      (id : String) (content : Bytes) (r : StoredContract)
      → Disk.decode persist id content ≡ ok r
      → entries_in id (some content) ≡ operations_of r
  unfolding entries_in
  entries_decoded id content r decoded = ap entries decoded
    where
      entries : Result StoredContract → Entries Committed
      entries o = elim o [ err e ↦ [] | ok r ↦ operations_of r ]

  -- A file renamed over one that is without the operation.
  renamed-Adds :
      (id key : String) (e : Committed) (d : Disk) (content : Bytes)
      → registered d id key ≡ none
      → ((key' : String)
          → get_entry key' (entries_in id (some content))
            ≡ (if key == key' then some e else registered d id key'))
      → Adds (registered d) id key e (registered (renamed id content d))
  renamed-Adds id key e d content absent adds = (absent, λ id' key'. at id' key' (id == id') refl)
    where
      at :
          (id' key' : String) (here : Bool)
          → (id == id') ≡ here
          → get_entry key' (entries_in id' (if here then some content else d.visible id'))
            ≡ (if here && key == key' then some e else registered d id' key')
      at id' key' false other = refl
      at id' key' true same =
          subst
            (λ j.
              get_entry key' (entries_in j (some content))
              ≡ (if key == key' then some e else registered d j key'))
            (same_text id id' same) (adds key')

module _ (std : Std) (crypto : Crypto) (persist : Persist) where
  read_registered :
      (f : Faults) (id : String) (d : Disk) (r : StoredContract) (c : Contract)
      → read std crypto persist f id d ≡ ok (r, c)
      → entries_in persist id (d.visible id) ≡ operations_of r
  read_registered f id d r c found =
      let (bytes, is, decoded) = read-Decoded std crypto persist r c f id d found in
      ap (entries_in persist id) is ∙ entries_decoded persist id bytes r decoded

  -- The file that `Apply` seals, at the register.
  Sealed-Adds :
      Faithful persist
      → (f : Faults) (id : String) (op : Operation) (signature : Bytes) (d : Disk)
        (r : StoredContract) (c c' : Contract) (content : Bytes)
      → Draws persist f
      → read std crypto persist f id d ≡ ok (r, c)
      → get_entry op.id (operations_of r) ≡ none
      → Sealed persist f id (committed_record r id op signature c') content
      → Adds
          (registered persist d)
          id
          op.id
          (record { operation = op; signature = signature; answer = answer_of id op c' })
          (registered persist (renamed id content d))
  Sealed-Adds faithful f id op signature d r c c' content draws found fresh sealed =
      let next = committed_record r id op signature c' in
      let (r', is_stored, same) =
        decode-file_content persist faithful id sealed.nonce sealed.plain next sealed.made
          (draws sealed.nonce sealed.drawn) sealed.small
          (read_version std crypto persist f id d r c found) in
      let e : Committed = record {
        operation = op;
        signature = signature;
        answer = answer_of id op c';
      } in
      let decoded = ap (Disk.decode persist id) sealed.is_content ∙ is_stored in
      let was = read_registered f id d r c found in
      renamed-Adds persist id op.id e d content (ap (get_entry op.id) was ∙ fresh) (λ key'.
        ap (get_entry key') (entries_decoded persist id content r' decoded)
        ∙ same.entries key'
        ∙ get_entry_after op.id key' e (operations_of r)
        ∙ ap (λ o. if op.id == key' then some e else o) (sym (ap (get_entry key') was)))

  abbrev Implements : Disk → String → Operation → Reply Answer → Type 0
  Implements d id op out = Registers (registered persist d) id op out.0 (registered persist out.1)

  -- `Apply` implements the register of results: seen through the operations in the files, it refuses and
  -- leaves the register, answers the entry that is there for the same operation, or adds an entry where
  -- there is none, with its answer, which is in doubt where the commit is uncertain. It is assumed that
  -- JSON and the encryption read back what they wrote and that a nonce has its length.
  pub apply-Registers :
      Faithful persist
      → (f : Faults) (id : String) (op : Operation) (signature : Bytes) (rnd : Entropy) (now : Time)
        (d : Disk)
      → Draws persist f
      → Registers
          (registered persist d)
          id
          op
          (Store.apply std crypto persist f id op signature rnd now d).0
          (registered persist (Store.apply std crypto persist f id op signature rnd now d).1)
  apply-Registers faithful f id op signature rnd now d draws =
      apply_rule std crypto persist f id op signature rnd now d (Implements d id op)
        (λ e. refuses e (λ i k. refl))
        (λ r c prior authentic known same. (
          refuses commit_uncertain (λ i k. refl),
          repeats prior (ap (get_entry op.id) (read_registered f id d r c authentic.found) ∙ known)
              (same_operation_sound prior.operation op same) (λ i k. refl),
        ))
        (λ r c c' authentic fresh tried.
          let e : Committed = record {
            operation = op;
            signature = signature;
            answer = answer_of id op c';
          } in
          write_rule persist (λ out. Implements d id op (concluded (answer_of id op c') out)) f id
            (committed_record r id op signature c') d (λ x. refuses x (λ i k. refl))
            (λ content sealed.
              let adds =
                Sealed-Adds faithful f id op signature d r c c' content draws authentic.found fresh
                  sealed in
              (doubts e refl adds, doubts e refl adds, registers e refl adds)))
