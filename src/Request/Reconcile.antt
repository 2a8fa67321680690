-- ===== src/Request/Reconcile.antt =====
-- routers/request.py: the rows the handler delivers, and the signals that go with them.
use request_o_matic.Base.{
  not, ◌||◌, if◌then◌else◌, ◌≡◌, refl, Bool, true, List, [], ◌∷◌, arith, Bool-cases, inl, inr, All,
  is_nil, length, map, ◌&&◌, ◌≤◌,
}
use request_o_matic.Base.Int.{is_positive}
use request_o_matic.Exec.{Result, ok, raised}
use request_o_matic.Lookup.{LookupResult}
use request_o_matic.Metadata.{ParsedRequest, LookupResultItem, LookupResponse}
use request_o_matic.Request.Notify.{not_in_library_context}
use request_o_matic.Request.Search.{
  findings_of, reconcile, shelved, results_of, with_artwork, is_emptied, truth,
}

shelved-IsShelved :
    (rs : List LookupResultItem)
    → All (λ p. is_positive p.0.id ≡ true) (map with_artwork (shelved rs))
unfolding shelved
shelved-IsShelved [] = tt
shelved-IsShelved (r ∷ rs) = elim (Bool-cases (is_positive r.library_item.id)) [
  | inl h ↦ rw (h, shelved) (h, shelved-IsShelved rs)
  | inr h ↦ rw (h, shelved) (shelved-IsShelved rs)
]

length-shelved : (rs : List LookupResultItem) → length (shelved rs) ≤ length rs
unfolding shelved
length-shelved [] = omega arith
length-shelved (r ∷ rs) = ground (arith, length-shelved rs)

-- Rows came, and each of them is only in the catalog.
abbrev pub all_catalog_only : List LookupResultItem → Bool
all_catalog_only [] = true
all_catalog_only (r ∷ rs) = not (is_positive r.library_item.id) && all_catalog_only rs

abbrev pub is_hidden : List LookupResultItem → Bool
is_hidden rs = not (is_nil rs) && all_catalog_only rs

is_nil-shelved : (rs : List LookupResultItem) → is_nil (shelved rs) ≡ all_catalog_only rs
unfolding shelved
is_nil-shelved [] = refl
is_nil-shelved (r ∷ rs) = ground (arith, is_nil-shelved rs)

is_emptied-is_hidden : (rs : List LookupResultItem) → is_emptied rs ≡ is_hidden rs
unfolding is_emptied
is_emptied-is_hidden rs = ground (arith, is_nil-shelved rs, length-shelved rs)

-- Whatever the search answers or fails with, every row that the handler goes on with has a
-- positive id.
pub findings_positive :
    (parsed : ParsedRequest) (outcome : Result LookupResult)
    → All (λ p. is_positive p.0.id ≡ true) (findings_of parsed outcome).items_with_artwork
unfolding findings_of
findings_positive parsed (ok r) = shelved-IsShelved (results_of r.response)
findings_positive parsed (raised e) = tt

-- The signals that go with the rows. When rows came and all of them are only in the catalog, the
-- song counts as not found and not as found on a compilation, and the message names the artist that
-- was asked for. In every other case the three signals are those of the answer.
pub reconcile_signals :
    (parsed : ParsedRequest) (response : LookupResponse)
    → ((reconcile parsed response).song_not_found
        ≡ (is_hidden (results_of response) || truth response.song_not_found))
      × (((reconcile parsed response).found_on_compilation
            ≡ (not (is_hidden (results_of response)) && truth response.found_on_compilation))
          × ((reconcile parsed response).context ≡ (
              if is_hidden (results_of response)
              then not_in_library_context (reconcile parsed response).parsed parsed.artist
              else response.context_message)))
unfolding reconcile
reconcile_signals parsed response =
    rw (is_emptied-is_hidden (results_of response))
      (elim (Bool-cases (is_hidden (results_of response))) [
        | inl hidden ↦ rw hidden (refl, (refl, refl))
        | inr kept ↦ rw kept (refl, (refl, refl))
      ])
