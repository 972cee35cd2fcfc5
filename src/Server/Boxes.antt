-- ===== src/Server/Boxes.antt =====
-- Mailboxes, as the users of server/router.cpp see them: what waits for a user is a bag of messages, in
-- which the order of the table is forgotten.
use mathlib.Core.Quot
use mathlib.Core.Quot.{Quot, Quot-set}
use mathlib.Core.List.Perm
use asynchronous_messenger.Base.{ℕ, List, [], ◌∷◌, ◌++◌, ◌==◌, nat_eq, if◌then◌else◌, Perm}
use asynchronous_messenger.Database.{Message}

-- A bag of messages, and the bags of all users.
abbrev pub Bag : Type 0
Bag = Quot (Perm {A = Message})

abbrev pub bag : List Message → Bag
bag = Quot.mk

abbrev pub Boxes : Type 0
Boxes = ℕ → Bag

unfoldable pub add : Message → Bag → Bag
add m =
    Quot.lift Quot-set (λ ms. bag (ms ++ m ∷ []))
      (λ ms ns p. Quot.sound (Perm.append_right (m ∷ []) p))

-- What is seen of a step: a message was put into a box, a box was emptied, or neither.
pub data Label : Type 0 where
  posted : ℕ → Message → Label
  collected : ℕ → Bag → Label
  passed : Label

-- What a step does to the boxes.
pub data MailStep : Boxes → Label → Boxes → Type 0 where
  post :
      (b : Boxes) (u : ℕ) (m : Message)
      → MailStep b (posted u m) (λ v. if u == v then add m (b v) else b v)
  collect :
      (b : Boxes) (u : ℕ) → MailStep b (collected u (b u)) (λ v. if u == v then bag [] else b v)
  pass : (b : Boxes) → MailStep b passed b

pub data MailRun : Boxes → List Label → Boxes → Type 0 where
  stop : (b : Boxes) → MailRun b [] b
  next :
      {a b c : Boxes} {l : Label} {ls : List Label}
      → MailStep a l b
      → MailRun b ls c
      → MailRun a (l ∷ ls) c
