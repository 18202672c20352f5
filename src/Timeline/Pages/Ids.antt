-- ===== src/Timeline/Pages/Ids.antt =====
-- MessageList.tsx: the message with the id that a request for an older page names.
use concordia_chat_app.Prelude.{
  ◌≡◌, refl, sym, ap, ◌∙◌, true, List, [], ◌∷◌, ◌++◌, String, arith, eq_iff,
}
use concordia_chat_app.Prelude.Keyed.{has, IsUnique}
use concordia_chat_app.Chat.{Message, id_of}

has-middle :
    (xs : List Message) (m : Message) (ys : List Message) (id : String)
    → m.message_id ≡ id
    → has id_of id (xs ++ m ∷ ys) ≡ true
has-middle [] m ys id e = let same = (eq_iff m.message_id id).1 e in rw same refl
has-middle (x ∷ xs) m ys id e = let found = has-middle xs m ys id e in ground (arith, found)

-- What stands before a message is known by its id.
pub before_id :
    (xs ys : List Message) (m x : Message) (tl later : List Message)
    → IsUnique id_of (ys ++ x ∷ later)
    → xs ++ m ∷ tl ≡ ys ++ x ∷ later
    → m.message_id ≡ x.message_id
    → xs ≡ ys
before_id [] [] m x tl later u e n = refl
before_id [] (y ∷ ys) m x tl later u e n =
    let first : m ≡ y = cc e in
    absurd (cc (u.0, has-middle ys x later y.message_id (sym n ∙ ap id_of first)))
before_id (z ∷ xs) [] m x tl later u e n =
    let rests : xs ++ m ∷ tl ≡ later = cc e in
    absurd (cc (u.0, ap (has id_of x.message_id) rests, has-middle xs m tl x.message_id n))
before_id (z ∷ xs) (y ∷ ys) m x tl later u e n =
    let first : z ≡ y = cc e in
    let rests : xs ++ m ∷ tl ≡ ys ++ x ∷ later = cc e in
    cc (first, before_id xs ys m x tl later u.1 rests n)
