-- ===== src/Moderators/Roster.antt =====
-- services/moderator_client.py: what the roster that is sent stands for, and which one is accepted.
use request_o_matic.Base.{
  ℕ, ◌+◌, ◌≤◌, ◌≡◌, refl, sym, ap, subst, ◌∙◌, Bool, true, false, Option, none, some, List, [], ◌∷◌,
  arith, ltb, map, all, length, All, Bool-cases, Option-cases, inl, inr,
}
use request_o_matic.Exec.{Exception, Result, ok, raised}
use request_o_matic.Exec.Ensures.{Outcome}
use request_o_matic.Json.{Json, Items, null, boolean, number, string, array, object, get}
use request_o_matic.Moderators.{
  normalize_slack_user_ids, extract_ids, row_ids, row_id, count_items, client_error,
  max_roster_size, given_text, roster_items, add_id,
}
use request_o_matic.Text.{Text, text, is_given}
use mathlib.Core.Option.{none-ne-some, some-injective}
use request_o_matic.Text.Ascending.{SameMembers, sorted_set-IsAscending, ascending_ext}
use request_o_matic.Text.Order.{sorted_set, IsAscending, has_text-sorted_set}

abbrev pub IsClientError : Exception → Type 0
IsClientError (Exception.moderator_client_error status body) = Unit {0}
IsClientError e = ⊥

abbrev pub is_usable : Text → Bool
is_usable user_id = is_given (some user_id)

module _ (upper : Text → Text) where
  -- An accepted list is sent in ascending order, with exactly the upper-cased members of what was
  -- given. A list is refused, with the client's own error, exactly if it has an empty member.
  pub normalize_outcome :
      (user_ids : List Text)
      → Outcome
          (λ e. (e ≡ client_error 0 (text "malformed_user_ids")) × (all is_usable user_ids ≡ false))
          (λ roster.
            IsAscending roster
            × SameMembers roster (map upper user_ids)
            × (all is_usable user_ids ≡ true))
          (normalize_slack_user_ids upper user_ids)
  unfolding normalize_slack_user_ids
  normalize_outcome user_ids = elim (Bool-cases (all is_usable user_ids)) [
    | inl given ↦ rw given (
      sorted_set-IsAscending (map upper user_ids),
      λ w. has_text-sorted_set w (map upper user_ids),
      refl,
    )
    | inr malformed ↦ rw malformed (refl, refl)
  ]

  -- Two lists without an empty member that have the same members once they are in upper case, in any
  -- order and as often as they like, are sent as the same roster.
  pub normalize_canonical :
      (us vs : List Text)
      → all is_usable us ≡ true
      → all is_usable vs ≡ true
      → SameMembers (map upper us) (map upper vs)
      → normalize_slack_user_ids upper us ≡ normalize_slack_user_ids upper vs
  unfolding normalize_slack_user_ids
  normalize_canonical us vs h k same =
      rw (h, k)
        (ap ok (
          ascending_ext (sorted_set (map upper us)) (sorted_set (map upper vs))
            (sorted_set-IsAscending (map upper us)) (sorted_set-IsAscending (map upper vs))
            (λ w.
              has_text-sorted_set w (map upper us)
              ∙ (same w ∙ sym (has_text-sorted_set w (map upper vs))))))

abbrev pub IsUsable : Text → Type 0
IsUsable user_id = is_usable user_id ≡ true

abbrev RowsOutcome : ℕ → Result (List Text) → Type 0
RowsOutcome n r = Outcome IsClientError (λ ids. (length ids ≡ n) × All IsUsable ids) r

given_text-IsUsable : (v : Option Json) (u : Text) → given_text v ≡ some u → IsUsable u
given_text-IsUsable none u h = absurd (none-ne-some u h)
given_text-IsUsable (some (string [])) u h = absurd (none-ne-some u h)
given_text-IsUsable (some (string (c ∷ s))) u h = subst IsUsable (some-injective (c ∷ s) u h) refl
given_text-IsUsable (some null) u h = absurd (none-ne-some u h)
given_text-IsUsable (some (boolean b)) u h = absurd (none-ne-some u h)
given_text-IsUsable (some (number b l)) u h = absurd (none-ne-some u h)
given_text-IsUsable (some (array vs)) u h = absurd (none-ne-some u h)
given_text-IsUsable (some (object kvs)) u h = absurd (none-ne-some u h)

row_id_outcome : (row : Json) → Outcome IsClientError IsUsable (row_id row)
row_id_outcome (object row) = elim (Option-cases (given_text (get (text "slack_user_id") row))) [
  | inl missing ↦ rw (missing, row_id) tt
  | inr (u, there) ↦
      rw (there, row_id) (given_text-IsUsable (get (text "slack_user_id") row) u there)
]
row_id_outcome null = tt
row_id_outcome (boolean b) = tt
row_id_outcome (number b l) = tt
row_id_outcome (string s) = tt
row_id_outcome (array vs) = tt

add_id_outcome :
    (n : ℕ) (r : Result Text) (rs : Result (List Text))
    → Outcome IsClientError IsUsable r
    → RowsOutcome n rs
    → RowsOutcome (1 + n) (add_id r rs)
add_id_outcome n (raised e) rs h k = h
add_id_outcome n (ok u) (raised e) h k = k
add_id_outcome n (ok u) (ok us) h k = (omega (arith, k.0), (h, k.1))

row_ids_outcome : (rows : Items) → RowsOutcome (count_items rows) (row_ids rows)
unfolding row_ids
row_ids_outcome Items.nil = (refl, tt)
row_ids_outcome (Items.item row rows) =
    add_id_outcome (count_items rows) (row_id row) (row_ids rows) (row_id_outcome row)
      (row_ids_outcome rows)

abbrev pub BoundedOutcome : Result (List Text) → Type 0
BoundedOutcome r =
    Outcome IsClientError (λ ids. (length ids ≤ max_roster_size) × All IsUsable ids) r

bounded :
    (n : ℕ) (r : Result (List Text)) → n ≤ max_roster_size → RowsOutcome n r → BoundedOutcome r
bounded n (ok ids) le h = (omega (arith, h.0), h.1)
bounded n (raised e) le h = h

roster_items_outcome : (v : Option Json) → BoundedOutcome (roster_items v)
roster_items_outcome (some (array rows)) =
    elim (Bool-cases (ltb max_roster_size (count_items rows))) [
      | inl over ↦ rw (over, roster_items) tt
      | inr within ↦
          rw (within, roster_items)
            (bounded (count_items rows) (row_ids rows) (ground arith) (row_ids_outcome rows))
    ]
roster_items_outcome none = tt
roster_items_outcome (some null) = tt
roster_items_outcome (some (boolean b)) = tt
roster_items_outcome (some (number b l)) = tt
roster_items_outcome (some (string s)) = tt
roster_items_outcome (some (object kvs)) = tt

-- Whatever JSON Backend-Service sends, it is read as at most 200 members, none of them empty, or it
-- is refused with the client's own error.
pub extract_ids_outcome : (payload : Json) → BoundedOutcome (extract_ids payload)
unfolding extract_ids
extract_ids_outcome (object payload) = roster_items_outcome (get (text "items") payload)
extract_ids_outcome null = tt
extract_ids_outcome (boolean b) = tt
extract_ids_outcome (number b l) = tt
extract_ids_outcome (string s) = tt
extract_ids_outcome (array vs) = tt
