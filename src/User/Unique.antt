-- ===== src/User/Unique.antt =====
-- One user for each Supabase id.
use veyaan_core_backend.Prelude.{
  ℕ, String, Bool, false, ◌≤◌, Option, none, some, List, [], ◌∷◌, ◌≡◌, refl, sym, inl, inr, subst,
  Bool-cases, find?, select, length, str_eq, str_eq_refl, str_eq_iff, arith, find?-append_none,
  select-append_kept, select-append_dropped,
}
use veyaan_core_backend.Python.{ok}
use veyaan_core_backend.User.{
  User, TokenClaims, UserContext, new_user, get_by_supabase_id, or_created, get_or_create,
  context_of, is_suspended, admit, get_current_user_context,
}

abbrev has_id : String → User → Bool
has_id sub u = str_eq u.supabase_user_id sub

-- No two users have one Supabase id.
pub record IsUnique (users : List User) : Type 0 where
  pub at : (sub : String) → length (select (has_id sub) users) ≤ 1

none-selected : (p : User → Bool) (users : List User) → find? p users ≡ none → select p users ≡ []
unfolding find? select
none-selected p [] h = refl
none-selected p (u ∷ users) h = ground (arith, none-selected p users)

module _ (id : ℕ) (sub email display_name : String) where
  -- The users after one was asked for.
  abbrev asked : List User → Option User → List User
  asked users o = (or_created id sub email display_name users o).1

  count-asked :
      (users : List User) (o : Option User)
      → get_by_supabase_id sub users ≡ o
      → IsUnique users
      → (k : String) → length (select (has_id k) (asked users o)) ≤ 1
  unfolding get_by_supabase_id new_user
  count-asked users (some u) h unique k = unique.at k
  count-asked users none h unique k = elim (Bool-cases (str_eq sub k)) [
    | inl same ↦
        let none_yet : select (has_id k) users ≡ [] =
          none-selected (has_id k) users
            (subst (λ t. find? (has_id t) users ≡ none) ((str_eq_iff sub k).0 same) h) in
        rw (select-append_kept (has_id k) users (new_user id sub email display_name) same, none_yet)
          (omega arith)
    | inr other ↦
        rw (select-append_dropped (has_id k) users (new_user id sub email display_name) other)
          (unique.at k)
  ]

  get_or_create-IsUnique :
      (users : List User)
      → IsUnique users
      → IsUnique (get_or_create id sub email display_name users).1
  unfolding get_or_create
  get_or_create-IsUnique users unique = record {
    at = count-asked users (get_by_supabase_id sub users) refl unique;
  }

module _ (id later : ℕ) (sub email display_name : String) where
  found_again :
      (o : Option User) (users : List User) (name : String)
      → get_by_supabase_id sub users ≡ o
      → get_or_create later sub email name (or_created id sub email display_name users o).1
        ≡ or_created id sub email display_name users o
  unfolding get_or_create get_by_supabase_id find? new_user
  found_again (some u) users name h = rw h refl
  found_again none users name h =
      let row =
        find?-append_none (λ u. str_eq u.supabase_user_id sub) users
          (new_user id sub email display_name ∷ []) h in
      rw (row, str_eq_refl sub) refl

  -- The user that was found or created is found again, whatever id is at hand by then.
  get_or_create-again :
      (users : List User) (name : String)
      → get_or_create later sub email name (get_or_create id sub email display_name users).1
        ≡ get_or_create id sub email display_name users
  unfolding get_or_create
  get_or_create-again users name = found_again (get_by_supabase_id sub users) users name refl

module _ (id : ℕ) (claims : TokenClaims) (users : List User) where
  refused :
      (made : User × List User) (c : UserContext) (changed : List User)
      → admit users made ≡ (ok c, changed)
      → (is_suspended made.0.status ≡ false) × (context_of made.0 ≡ c) × (made.1 ≡ changed)
  refused (u, l) c changed h = elim (Bool-cases (is_suspended u.status)) [
    | inl e ↦ absurd (let bad = rw e at h in cc bad)
    | inr e ↦ (e, (let good = rw e at h in cc good), (let good = rw e at h in cc good))
  ]

  -- An account that was taken for a token is taken again, as the same user, and no user is added.
  get_current_user_context-again :
      (later : ℕ) (c : UserContext) (changed : List User)
      → get_current_user_context id (ok claims) users ≡ (ok c, changed)
      → get_current_user_context later (ok claims) changed ≡ (ok c, changed)
  unfolding get_current_user_context
  get_current_user_context-again later c changed h =
      let (active, context, after) =
        refused (get_or_create id claims.sub claims.email "" users) c changed h in
      rw
        (
          sym after,
          get_or_create-again id later claims.sub claims.email "" users "",
          active,
          context,
        )
        refl
