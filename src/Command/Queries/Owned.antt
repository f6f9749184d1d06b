-- ===== src/Command/Queries/Owned.antt =====
-- What a page of the list of commands shows.
use mathlib.Core.List.{Memᴰ}
use mathlib.Core.List.Memᴰ
use veyaan_core_backend.Prelude.{
  ℕ, zero, suc, Bool, true, ◌&&◌, ◌==◌, ◌≤◌, leb, Option, none, some, List, [], ◌∷◌, ◌≡◌, refl,
  arith, inl, inr, Bool-cases, ==→eq, select, take, length,
}
use veyaan_core_backend.Database.{Database}
use veyaan_core_backend.Command.Model.{Command}
use veyaan_core_backend.Command.Service.{is_owner}
use veyaan_core_backend.Device.Model.{Device}
use veyaan_core_backend.Device.Repository.{find_device}
use veyaan_core_backend.Pages.{drop, page_of, given}
use veyaan_core_backend.Command.Queries.{Filter, matches, Order, list_commands, list_page}

module _ {A : Type 0} where
  select-Memᴰ :
      (p : A → Bool) (xs : List A) (a : A) → Memᴰ a (select p xs) → Memᴰ a xs × (p a ≡ true)
  unfolding select
  select-Memᴰ p [] a m = elim m [ ]
  select-Memᴰ p (x ∷ xs) a m = elim (Bool-cases (p x)) [
    | inl hit ↦ elim (Memᴰ.cases_cons (rw hit at m)) [
      | inl e ↦ (Memᴰ.head e, rw e hit)
      | inr later ↦ let (inside, fits) = select-Memᴰ p xs a later in (Memᴰ.tail inside, fits)
    ]
    | inr miss ↦ let (inside, fits) = select-Memᴰ p xs a (rw miss at m) in (Memᴰ.tail inside, fits)
  ]

  take-Memᴰ : (n : ℕ) (xs : List A) (a : A) → Memᴰ a (take n xs) → Memᴰ a xs
  unfolding take
  take-Memᴰ zero xs a m = elim m [ ]
  take-Memᴰ (suc n) [] a m = elim m [ ]
  take-Memᴰ (suc n) (x ∷ xs) a m = elim (Memᴰ.cases_cons m) [
    | inl e ↦ Memᴰ.head e
    | inr later ↦ Memᴰ.tail (take-Memᴰ n xs a later)
  ]

  drop-Memᴰ : (n : ℕ) (xs : List A) (a : A) → Memᴰ a (drop n xs) → Memᴰ a xs
  unfolding drop
  drop-Memᴰ zero xs a m = m
  drop-Memᴰ (suc n) [] a m = elim m [ ]
  drop-Memᴰ (suc n) (x ∷ xs) a m = Memᴰ.tail (drop-Memᴰ n xs a m)

  length-take : (n : ℕ) (xs : List A) → length (take n xs) ≤ n
  unfolding take
  length-take zero xs = omega arith
  length-take (suc n) [] = omega arith
  length-take (suc n) (x ∷ xs) = omega (arith, length-take n xs)

-- A row of the table whose device is the owner's, as the filters ask for it.
pub record Shown (owner_id : ℕ) (f : Filter) (db : Database) (c : Command) : Type 0 where
  pub row : Memᴰ c db.commands
  pub device : Device
  pub found : find_device c.device_id db ≡ some device
  pub own : device.owner_id ≡ owner_id
  pub on_device : (i : ℕ) → f.device_id ≡ some i → c.device_id ≡ i
  pub not_before : (t : ℕ) → f.start_date ≡ some t → t ≤ c.created_at
  pub not_after : (t : ℕ) → f.end_date ≡ some t → c.created_at ≤ t

owner-inv :
    (owner_id : ℕ) (o : Option Device)
    → is_owner owner_id o ≡ true
    → (d : Device) × (o ≡ some d) × (d.owner_id ≡ owner_id)
owner-inv owner_id none h = ground arith
owner-inv owner_id (some d) h = (d, refl, ==→eq d.owner_id owner_id h)

given-inv :
    {A : Type 0} (o : Option A) (test : A → Bool) (a : A)
    → o ≡ some a
    → given o test ≡ true
    → test a ≡ true
given-inv o test a e h = rw e at h

from_leb : (a b : ℕ) → leb a b ≡ true → a ≤ b
from_leb a b h = ground arith

conjuncts :
    (a b c d e f g : Bool)
    → (a && b && c && d && e && f && g) ≡ true
    → (a ≡ true) × (b ≡ true) × (f ≡ true) × (g ≡ true)
conjuncts true true true true true true true h = (refl, refl, refl, refl)
conjuncts a b c d e f g h = ground arith

matches-Shown :
    (owner_id : ℕ) (f : Filter) (db : Database) (c : Command)
    → Memᴰ c db.commands
    → matches (record f { owner_id = some owner_id }) db c ≡ true
    → Shown owner_id f db c
unfolding matches
matches-Shown owner_id f db c row h =
    let (owned, on, early, late) =
      conjuncts (is_owner owner_id (find_device c.device_id db)) _ _ _ _ _ _ h in
    let (device, found, own) = owner-inv owner_id (find_device c.device_id db) owned in
    record {
      row = row;
      device = device;
      found = found;
      own = own;
      on_device = λ i e. ==→eq c.device_id i (given-inv f.device_id (λ k. c.device_id == k) i e on);
      not_before = λ t e.
          from_leb t c.created_at (given-inv f.start_date (λ u. leb u c.created_at) t e early);
      not_after =
          λ t e. from_leb c.created_at t (given-inv f.end_date (λ u. leb c.created_at u) t e late);
    }

-- What the list of commands shows to a user, in whatever order the database gives the rows of this
-- query: at most as many commands as a page holds, and each of them is a row of the table, on a
-- device of the user, on the device and in the time that the filters ask for.
pub list_page-Shown :
    (order : Order) (owner_id : ℕ) (f : Filter) (page page_size : ℕ) (db : Database)
    → ((xs : List Command) (c : Command) → Memᴰ c (order xs) → Memᴰ c xs)
    → (length (list_page order (record f { owner_id = some owner_id }) page page_size db).items
        ≤ page_size)
      × ((c : Command)
          → Memᴰ c (list_page order (record f { owner_id = some owner_id }) page page_size db).items
          → Shown owner_id f db c)
unfolding list_page list_commands page_of
list_page-Shown order owner_id f page page_size db adds_none = (
  length-take page_size _,
  λ c m.
      let (row, fits) =
        select-Memᴰ (matches (record f { owner_id = some owner_id }) db) db.commands c
          (adds_none _ c (drop-Memᴰ _ _ c (take-Memᴰ page_size _ c m))) in
      matches-Shown owner_id f db c row fits,
)
