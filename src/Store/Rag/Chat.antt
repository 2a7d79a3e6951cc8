-- ===== src/Store/Rag/Chat.antt =====
-- Finding a message of the chat by its id.
use mozgoslav.Prelude.{
  ◌≡◌, refl, String, Option, none, some, List, [], ◌∷◌, ◌++◌, map, ◌==◌, arith, if◌then◌else◌,
  or_else,
}
use mozgoslav.Store.Rag.{Message}

-- the first message with an id
abbrev pub find_message : String → List Message → Option Message
find_message id [] = none
find_message id (m ∷ messages) = if m.id == id then some m else find_message id messages

pub find_message-append :
    (id : String) (xs ys : List Message)
    → find_message id (xs ++ ys) ≡ or_else (find_message id xs) (find_message id ys)
find_message-append id [] ys = refl
find_message-append id (m ∷ xs) ys = ground (arith, find_message-append id xs ys)

abbrev pub map_option : (Message → Message) → Option Message → Option Message
map_option f none = none
map_option f (some m) = some (f m)

-- a change that keeps the ids
pub find_message-map :
    (f : Message → Message) (id : String) (xs : List Message)
    → ((m : Message) → (f m).id ≡ m.id)
    → find_message id (map f xs) ≡ map_option f (find_message id xs)
find_message-map f id [] h = refl
find_message-map f id (m ∷ xs) h = ground (arith, h m, find_message-map f id xs h)
