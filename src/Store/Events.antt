-- ===== src/Store/Events.antt =====
-- What happens to the disk of a store: calls of its methods by any number of programs, one after another
-- under the lock, with any faults; and crashes, after which each file is one of those that may survive.
use nexum.Prelude.{◌≡◌, String, some, [], ◌∷◌, length}
use mathlib.Core.List.{Memᴰ}
use nexum.Std.{Std, Bytes, Time}
use nexum.Room.{Entropy}
use nexum.Identity.{Crypto}
use nexum.Contract.{Contract}
use nexum.Operation.{Operation, Persist}
use nexum.Disk.{Disk, Faults}
use nexum.Store

-- A nonce that is drawn fills the slice it is drawn into.
abbrev pub Draws : Persist → Faults → Type 0
Draws persist f = (nonce : Bytes) → f.nonce ≡ some nonce → length nonce ≡ persist.nonce_size

-- Every file is one of those that may survive, and no other may any longer.
pub record IsCrash (d d' : Disk) : Type 0 where
  pub chosen : (id : String) → Memᴰ (d'.visible id) (d.survivors id)
  pub settled : (id : String) → d'.survivors id ≡ d'.visible id ∷ []

pub data Event (std : Std) (crypto : Crypto) (persist : Persist) (d : Disk) : Disk → Type 0 where
  created :
      (f : Faults) (c : Contract)
      → Draws persist f
      → Event std crypto persist d (Store.create std crypto persist f c d).1
  viewed :
      (f : Faults) (id : String)
      → Event std crypto persist d (Store.view std crypto persist f id d).1
  prepared :
      (f : Faults) (id operation_id action evidence : String)
      → Event std crypto persist d
          (Store.prepare std crypto persist f id operation_id action evidence d).1
  applied :
      (f : Faults) (id : String) (op : Operation) (signature : Bytes) (rnd : Entropy) (now : Time)
      → Draws persist f
      → Event std crypto persist d (Store.apply std crypto persist f id op signature rnd now d).1
  crashed : (d' : Disk) → IsCrash d d' → Event std crypto persist d d'

-- Any events, one after another.
pub data Events (std : Std) (crypto : Crypto) (persist : Persist) (d : Disk) : Disk → Type 0 where
  still : Events std crypto persist d d
  then :
      {d' d'' : Disk}
      → Events std crypto persist d d'
      → Event std crypto persist d' d''
      → Events std crypto persist d d''
