-- ===== src/Moderators/Envelope.antt =====
-- services/moderator_client.py, `_extract_ids`: which answers of Backend-Service are a roster.
use mathlib.Core.Option.{none-ne-some, some-injective}
use request_o_matic.Base.{
  ◌≤◌, ◌≡◌, refl, ap, subst, ◌∙◌, ◌↔◌, false, Option, none, some, List, [], ◌∷◌, arith, ltb, length,
  Bool-cases, Option-cases, inl, inr,
}
use request_o_matic.Exec.{Result, ok, raised}
use request_o_matic.Json.{Json, Items, Members, get, string, array, object}
use request_o_matic.Moderators.Roster.{IsUsable}
use request_o_matic.Moderators.{
  extract_ids, row_ids, row_id, count_items, max_roster_size, given_text, roster_items, add_id,
}
use request_o_matic.Text.{Text, text}

-- A row is a dict with this member under `slack_user_id`, and with whatever fields of its own.
abbrev pub IsRow : Json → Text → Type 0
IsRow (object row) user_id =
    (get (text "slack_user_id") row ≡ some (string user_id)) × IsUsable user_id
IsRow v user_id = ⊥

-- One row for each member, in the order of the members.
abbrev pub AreRows : Items → List Text → Type 0
AreRows Items.nil [] = Unit {0}
AreRows Items.nil (u ∷ us) = ⊥
AreRows (Items.item row rows) [] = ⊥
AreRows (Items.item row rows) (u ∷ us) = IsRow row u × AreRows rows us

-- The envelope `{items}`, with whatever other fields.
pub record IsRoster (payload : Json) (user_ids : List Text) : Type 0 where
  pub fields : Members
  pub rows : Items
  pub is_dict : payload ≡ object fields
  pub has_items : get (text "items") fields ≡ some (array rows)
  pub are_rows : AreRows rows user_ids
  pub is_bounded : length user_ids ≤ max_roster_size

given_text-some :
    (v : Option Json) (u : Text) → given_text v ≡ some u → (v ≡ some (string u)) × IsUsable u
given_text-some (some (string (c ∷ s))) u h =
    let same = some-injective (c ∷ s) u h in
    (ap (λ t. some (string t)) same, subst IsUsable same refl)
given_text-some none u h = absurd (none-ne-some u h)
given_text-some (some v) u h = absurd (none-ne-some u h)

row_id-ok : (row : Json) (u : Text) → row_id row ≡ ok u → IsRow row u
row_id-ok (object row) u h = elim (Option-cases (given_text (get (text "slack_user_id") row))) [
  | inl missing ↦ absurd (ground (arith, h, missing))
  | inr (v, there) ↦ given_text-some _ u (there ∙ ap some (ground (arith, h, there)))
]
row_id-ok v u h = absurd (ground (arith, h))

row_id-IsRow : (row : Json) (u : Text) → IsRow row u → row_id row ≡ ok u
row_id-IsRow (object row) u (found, given) = ground (arith, found, given)
row_id-IsRow v u h = absurd h

add_id-ok :
    (r : Result Text) (rs : Result (List Text)) (us : List Text)
    → add_id r rs ≡ ok us
    → (u : Text) × (vs : List Text) × (r ≡ ok u) × (rs ≡ ok vs) × (u ∷ vs ≡ us)
add_id-ok (raised e) rs us h = absurd (ground (arith, h))
add_id-ok (ok u) (raised e) us h = absurd (ground (arith, h))
add_id-ok (ok u) (ok vs) us h = (u, vs, refl, refl, ground (arith, h))

row_ids-ok : (rows : Items) (us : List Text) → row_ids rows ≡ ok us → AreRows rows us
unfolding row_ids
row_ids-ok Items.nil [] h = tt
row_ids-ok Items.nil (u ∷ us) h = absurd (ground (arith, h))
row_ids-ok (Items.item row rows) us h =
    let (u, vs, first, later, same) = add_id-ok (row_id row) (row_ids rows) us h in
    subst (AreRows (Items.item row rows)) same (row_id-ok row u first, row_ids-ok rows vs later)

row_ids-AreRows : (rows : Items) (us : List Text) → AreRows rows us → row_ids rows ≡ ok us
unfolding row_ids
row_ids-AreRows Items.nil [] h = refl
row_ids-AreRows Items.nil (u ∷ us) h = absurd h
row_ids-AreRows (Items.item row rows) [] h = absurd h
row_ids-AreRows (Items.item row rows) (u ∷ us) (first, later) =
    ap (λ r. add_id r (row_ids rows)) (row_id-IsRow row u first)
    ∙ ap (add_id (ok u)) (row_ids-AreRows rows us later)

length-AreRows : (rows : Items) (us : List Text) → AreRows rows us → count_items rows ≡ length us
length-AreRows Items.nil [] h = refl
length-AreRows Items.nil (u ∷ us) h = absurd h
length-AreRows (Items.item row rows) [] h = absurd h
length-AreRows (Items.item row rows) (u ∷ us) (first, later) =
    omega (arith, length-AreRows rows us later)

roster_items-ok :
    (v : Option Json) (us : List Text)
    → roster_items v ≡ ok us
    → (rows : Items) × (v ≡ some (array rows)) × AreRows rows us × (length us ≤ max_roster_size)
roster_items-ok (some (array rows)) us h =
    elim (Bool-cases (ltb max_roster_size (count_items rows))) [
      | inl over ↦ absurd (ground (arith, h, over))
      | inr within ↦
          let are_rows = row_ids-ok rows us (rw (within, roster_items) at h) in
          (rows, refl, are_rows, ground (arith, within, length-AreRows rows us are_rows))
    ]
roster_items-ok v us h = absurd (ground (arith, h))

extract_ids-ok :
    (payload : Json) (us : List Text) → extract_ids payload ≡ ok us → IsRoster payload us
unfolding extract_ids
extract_ids-ok (object fields) us h =
    let (rows, found, are_rows, bounded) = roster_items-ok (get (text "items") fields) us h in
    record {
      fields = fields;
      rows = rows;
      is_dict = refl;
      has_items = found;
      are_rows = are_rows;
      is_bounded = bounded;
    }
extract_ids-ok v us h = absurd (ground (arith, h))

extract_ids-IsRoster :
    (payload : Json) (us : List Text) → IsRoster payload us → extract_ids payload ≡ ok us
unfolding extract_ids
extract_ids-IsRoster payload us r =
    let within : ltb max_roster_size (count_items r.rows) ≡ false =
      ground (arith, length-AreRows r.rows us r.are_rows, r.is_bounded) in
    ap extract_ids r.is_dict
    ∙ (ap roster_items r.has_items
        ∙ rw (within, roster_items) (row_ids-AreRows r.rows us r.are_rows))

-- An answer of Backend-Service is read as these members exactly if it is a roster of them: a dict whose
-- `items` is a list with one dict for each, in their order and each with fields of its own, that has the
-- member, a text that is not empty, as its `slack_user_id`; and they are at most 200.
pub extract_ids_iff :
    (payload : Json) (us : List Text) → (extract_ids payload ≡ ok us) ↔ IsRoster payload us
extract_ids_iff payload us = (extract_ids-ok payload us, extract_ids-IsRoster payload us)
