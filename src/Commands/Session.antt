-- ===== src/Commands/Session.antt =====
-- routers/slack_commands.py and routers/slack_interactivity.py: the modal that the command opens, and the
-- save that comes back from it.
use mathlib.Core.Path.{fun_ext}
use mathlib.Core.Option.{none-ne-some, some-injective}
use request_o_matic.Authorization.{
  AuthorizedUsers, resolve_authorized_users, is_authorized_slack_user_in,
}
use request_o_matic.Base.{
  ◌≡◌, refl, sym, ap, ◌∙◌, Bool, true, false, ◌&&◌, Option, none, some, List, [], ◌∷◌, map, All,
  arith, is_nil, ltb, length, if◌then◌else◌,
}
use request_o_matic.Commands.{roster_modal, roster_context, modal, texts}
use request_o_matic.Exec.{Exec, ok, attempt, ◌>>=◌, lift}
use request_o_matic.Interactivity.{
  Python, Deployment, Reply, as_text, dict_get, or_dict, field, max_private_metadata_len,
}
use request_o_matic.Interactivity.Save.{
  save_selected, save_expected, save_with, save_as, save_authorized, selected_users,
  handle_moderator_view_submission, cannot_reach_roster, loads_context, user_ids, user_ids_in,
  add_given, member_of, is_the_true, roster_error, opened_empty, after_save, stale_form,
}
use request_o_matic.Json.{Json, Members, string, get, items}
use request_o_matic.Moderators.Roster.{IsUsable}
use request_o_matic.Moderators.{ModeratorClient, replace_moderators}
use request_o_matic.Text.{Text, text, text_eq, is_given}

-- The picker of the modal opened empty, though the roster is not.
abbrev pub is_marked : Option (List Text) → Bool
is_marked none = false
is_marked (some dropped) = elim dropped [ [] ↦ false | u ∷ us ↦ true ]

-- What Python's `json` does with one value: its text is not empty, and is read back.
pub record IsCarried (py : Python) (context : Json) : Type 0 where
  pub is_text : is_given (some (py.dumps context)) ≡ true
  pub read_back : py.loads (py.dumps context) ≡ some context

user_ids_in-items :
    (us : List Text) → All IsUsable us → user_ids_in (items (map string us)) ≡ some us
unfolding user_ids_in
user_ids_in-items [] h = refl
user_ids_in-items (u ∷ us) h = ap (add_given (string u)) (user_ids_in-items us h.1) ∙ rw h.0 refl

user_ids-texts : (us : List Text) → All IsUsable us → user_ids (texts us) ≡ some us
unfolding user_ids
user_ids-texts us h = user_ids_in-items us h

module _ (us : List Text) (dropped : Option (List Text)) where
  member_of-moderators : member_of (text "moderators") (roster_context us dropped) ≡ texts us
  unfolding roster_context get text text_eq
  member_of-moderators = refl

  marked :
      is_the_true (member_of (text "initial_users_dropped") (roster_context us dropped))
      ≡ is_marked dropped
  unfolding roster_context get text text_eq
  marked =
      elim dropped
        as (λ x.
          is_the_true (member_of (text "initial_users_dropped") (roster_context us x))
          ≡ is_marked x) [ none ↦ refl | some [] ↦ refl | some (v ∷ vs) ↦ refl ]

-- The modal of a context that is short enough.
kept : (b : Bool) (view sent : Json) → (if b then none else some view) ≡ some sent → view ≡ sent
kept true view sent h = absurd (none-ne-some sent h)
kept false view sent h = some-injective view sent h

module _ (py : Python) (us bg : List Text) (dropped : Option (List Text)) where
  private_metadata-sent :
      (sent : Json)
      → roster_modal py us bg dropped ≡ some sent
      → dict_get (text "private_metadata") sent ≡ ok (string (py.dumps (roster_context us dropped)))
  unfolding roster_modal get text text_eq
  private_metadata-sent sent h =
      let carried_text = py.dumps (roster_context us dropped) in
      ap (dict_get (text "private_metadata")) (
        sym (
          kept (ltb max_private_metadata_len (length carried_text))
            (modal carried_text us bg dropped) sent h))

  module _ (carried : IsCarried py (roster_context us dropped)) where
    loads_context-carried :
        loads_context py (string (py.dumps (roster_context us dropped)))
        ≡ some (roster_context us dropped)
    unfolding loads_context
    loads_context-carried = ground (arith, carried.is_text, carried.read_back)

    module _ (usable : All IsUsable us) (d : Deployment) (payload : Members) (c : ModeratorClient)
        (user_id : Text) (selected : List Text) where
      abbrev expecting : Option (List Text) → Bool → Exec Reply
      expecting none dropped_flag = roster_error stale_form
      expecting (some expected) dropped_flag =
          if is_nil selected && dropped_flag
          then roster_error opened_empty
          else (attempt (replace_moderators c selected expected (some user_id)) >>= after_save)

      save_expected-context :
          save_expected py d payload c user_id selected (roster_context us dropped)
          ≡ expecting (some us) (is_marked dropped)
      unfolding save_expected
      save_expected-context =
          by_parts (user_ids (member_of (text "moderators") (roster_context us dropped)))
            (is_the_true (member_of (text "initial_users_dropped") (roster_context us dropped)))
          ∙ ap
              (λ o. expecting o (
                is_the_true (member_of (text "initial_users_dropped") (roster_context us dropped))))
              (ap user_ids (member_of-moderators us dropped) ∙ user_ids-texts us usable)
          ∙ ap (expecting (some us)) (marked us dropped)
        where
          by_parts :
              (o : Option (List Text)) (b : Bool)
              → (elim o as (λ x. Exec Reply) [
                | none ↦ roster_error stale_form
                | some expected ↦
                    if is_nil selected && b
                    then roster_error opened_empty
                    else (attempt (replace_moderators c selected expected (some user_id))
                        >>= after_save)
              ])
                ≡ expecting o b
          by_parts none b = refl
          by_parts (some expected) b = refl

      abbrev opening : Option Json → Exec Reply
      opening none = roster_error stale_form
      opening (some context) = save_expected py d payload c user_id selected context

      -- What the save comes to, for someone who may save.
      abbrev pub replacing : Exec Reply
      replacing =
          if is_nil selected && is_marked dropped
          then roster_error opened_empty
          else (attempt (replace_moderators c selected us (some user_id)) >>= after_save)

      save_selected-session :
          (sent : Json)
          → roster_modal py us bg dropped ≡ some sent
          → dict_get (text "private_metadata") (or_dict (field (text "view") payload))
            ≡ dict_get (text "private_metadata") sent
          → save_selected py d payload c user_id selected ≡ replacing
      unfolding save_selected
      save_selected-session sent h back =
          ap
            (λ r. lift r >>= λ stored. elim (loads_context py stored) [
              | none ↦ roster_error stale_form
              | some context ↦ save_expected py d payload c user_id selected context
            ])
            (back ∙ private_metadata-sent sent h)
          ∙ by_parts (loads_context py (string (py.dumps (roster_context us dropped))))
          ∙ ap opening loads_context-carried
          ∙ save_expected-context
        where
          by_parts :
              (o : Option Json)
              → (elim o as (λ x. Exec Reply) [
                | none ↦ roster_error stale_form
                | some context ↦ save_expected py d payload c user_id selected context
              ])
                ≡ opening o
          by_parts none = refl
          by_parts (some context) = refl

      save_with-session :
          (sent : Json)
          → roster_modal py us bg dropped ≡ some sent
          → dict_get (text "private_metadata") (or_dict (field (text "view") payload))
            ≡ dict_get (text "private_metadata") sent
          → selected_users py d payload ≡ texts selected
          → All IsUsable selected
          → save_with py d payload user_id (some c) ≡ replacing
      unfolding save_with
      save_with-session sent h back picked given =
          by_parts (user_ids (selected_users py d payload))
          ∙ ap reading (ap user_ids picked ∙ user_ids-texts selected given)
          ∙ save_selected-session sent h back
        where
          reading : Option (List Text) → Exec Reply
          reading none =
              roster_error (text "Could not read the selected users. Close this and try again.")
          reading (some chosen) = save_selected py d payload c user_id chosen

          by_parts :
              (o : Option (List Text))
              → (elim o as (λ x. Exec Reply) [
                | none ↦
                    roster_error
                      (text "Could not read the selected users. Close this and try again.")
                | some chosen ↦ save_selected py d payload c user_id chosen
              ])
                ≡ reading o
          by_parts none = refl
          by_parts (some chosen) = refl

      -- The answer to the submitter, by who is found to be authorized.
      abbrev pub decided : AuthorizedUsers → Exec Reply
      decided authorized =
          if is_authorized_slack_user_in (string user_id) authorized.users
          then replacing
          else if authorized.degraded
          then roster_error cannot_reach_roster
          else roster_error (text "You are not authorized to manage moderators.")

      -- A save of a modal that the command opened, by a submitter whose ID is a text, with a selection of
      -- texts that are not empty, on a deployment with the client: it first finds out who is authorized. For
      -- a submitter who is, it replaces the roster that the modal showed by the selection: what it sends as
      -- the current roster is that one, whatever has been stored since; but when the picker opened empty
      -- though the roster was not, an empty selection is refused. Anyone else is answered with an error in
      -- the modal. Python's `json` reads back the context that it wrote, and no member of the roster is
      -- empty.
      pub roster_session :
          (sent : Json)
          → roster_modal py us bg dropped ≡ some sent
          → dict_get (text "private_metadata") (or_dict (field (text "view") payload))
            ≡ dict_get (text "private_metadata") sent
          → selected_users py d payload ≡ texts selected
          → All IsUsable selected
          → dict_get (text "id") (or_dict (field (text "user") payload)) ≡ ok (string user_id)
          → d.moderator_client ≡ some c
          → handle_moderator_view_submission py d payload
            ≡ (resolve_authorized_users (some c) d.slack_ban_authorized_users >>= decided)
      unfolding handle_moderator_view_submission save_as
      roster_session sent h back picked given submitter client =
          ap (λ r. lift r >>= λ id. save_as py d payload (as_text id)) submitter
          ∙ ap
              (λ o.
                resolve_authorized_users o d.slack_ban_authorized_users
                >>= save_authorized py d payload user_id)
              client
          ∙ ap (λ k. resolve_authorized_users (some c) d.slack_ban_authorized_users >>= k)
              (fun_ext decides)
        where
          decides : (a : AuthorizedUsers) → save_authorized py d payload user_id a ≡ decided a
          decides a =
              unfold save_authorized in
              ap
                (λ m.
                  if is_authorized_slack_user_in (string user_id) a.users
                  then m
                  else if a.degraded
                  then roster_error cannot_reach_roster
                  else roster_error (text "You are not authorized to manage moderators."))
                (ap (save_with py d payload user_id) client
                  ∙ save_with-session sent h back picked given)
