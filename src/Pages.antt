-- ===== src/Pages.antt =====
-- Lists that are sent in pages: `query.offset((page - 1) * page_size).limit(page_size)`, and what the
-- routes say of the pages around. A page is at least 1, as the routes demand.
use veyaan_core_backend.Prelude.{
  ℕ, zero, suc, Bool, true, ltb, ◌||◌, String, str_eq, Option, none, some, ◌*◌, ◌-◌, List, [], ◌∷◌,
  take,
}

-- `if value: query = query.where(…)`
abbrev pub given {ℓ} : {A : Type ℓ} → Option A → (A → Bool) → Bool
given none test = true
given (some a) test = test a

-- The same for a text; one that is empty is no filter.
abbrev pub text_is : String → String → Bool
text_is column wanted = str_eq wanted "" || str_eq column wanted

module _ {ℓ} {A : Type ℓ} where
  -- OFFSET n.
  unfoldable pub drop : ℕ → List A → List A
  drop zero xs = xs
  drop (suc n) [] = []
  drop (suc n) (x ∷ xs) = drop n xs

  unfoldable pub page_of : ℕ → ℕ → List A → List A
  unfolding take drop
  page_of page page_size rows = take page_size (drop ((page - 1) * page_size) rows)

-- `(page * page_size) < total`
abbrev pub has_next : ℕ → ℕ → ℕ → Bool
has_next page page_size total = ltb (page * page_size) total
