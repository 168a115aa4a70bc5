-- ===== src/Storage/Laws.antt =====
-- storage.js: lemmas for the modules that keep values in the store.
use text.Mathlib.TextLemmas.{append_cancel_left}
use aetheldesk.Base.{
  String, ◌≡◌, true, none, some, arith, str_eq, eq_iff, eq_refl, ◌⊎◌, inl, inr, sym, ◌∙◌,
  if◌then◌else◌, Bool-cases,
}
use aetheldesk.Storage.{
  Browser, is_next_intent, next_intent_storage_key, token_storage_key, read_room_token,
  store_room_token, clear_room_token, read_next_intent, store_next_intent,
}

-- Two rooms share a key only if they are one room.
token_storage_key-injective : (r s : String) → token_storage_key r ≡ token_storage_key s → r ≡ s
unfolding token_storage_key
token_storage_key-injective r s = append_cancel_left "room_token:" r s

str_eq-token_storage_key :
    (r s : String) → str_eq (token_storage_key r) (token_storage_key s) ≡ str_eq r s
str_eq-token_storage_key r s = elim (Bool-cases (str_eq r s)) [
  | inl e ↦ rw ((eq_iff r s).0 e) (eq_refl (token_storage_key s) ∙ sym (eq_refl s))
  | inr e ↦ ground (
    arith,
    token_storage_key-injective r s,
    eq_iff (token_storage_key r) (token_storage_key s),
    eq_iff r s,
  )
]

-- The token of a room is what was stored for it last, and other rooms keep theirs.
pub read-store_room_token :
    (r s token : String) (b : Browser)
    → read_room_token s (store_room_token r token b)
      ≡ (if str_eq r s then some token else read_room_token s b)
unfolding read_room_token store_room_token
read-store_room_token r s token b = rw str_eq-token_storage_key

-- After a room's token was cleared, that room has none, and other rooms keep theirs.
pub read-clear_room_token :
    (r s : String) (b : Browser)
    → read_room_token s (clear_room_token r b) ≡ (if str_eq r s then none else read_room_token s b)
unfolding read_room_token clear_room_token
read-clear_room_token r s b = rw str_eq-token_storage_key

-- Whatever the browser holds, reading the next intent gives none or one of the three choices, and
-- reading it again gives the same answer and changes nothing more.
pub read_next_intent_valid :
    (b : Browser)
    → let r = read_next_intent b in
      ((r.0 ≡ none) ⊎ ((v : String) × (r.0 ≡ some v) × (is_next_intent v ≡ true)))
      × (read_next_intent r.1 ≡ r)
unfolding read_next_intent
read_next_intent_valid b = ground (arith, eq_refl next_intent_storage_key)

-- Storing an intent and reading it back gives the value exactly when it is one of the choices.
pub read-store_next_intent :
    (v : String) (b : Browser)
    → (read_next_intent (store_next_intent (some v) b).1).0 ≡ (store_next_intent (some v) b).0
unfolding read_next_intent store_next_intent
read-store_next_intent v b = ground (arith)
