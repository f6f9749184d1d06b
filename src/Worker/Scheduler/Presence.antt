-- ===== src/Worker/Scheduler/Presence.antt =====
-- app/workers/scheduler.py: `_detect_stale_device_presence`.
use mathlib.Core.Option
use mathlib.Core.List.{Memᴰ}
use veyaan_core_backend.Prelude.{
  ℕ, Bool, true, false, not, ◌&&◌, ◌||◌, ◌==◌, Option, none, some, List, [], ◌∷◌, ◌≡◌, refl, ◌∙◌,
  ap, arith, map, if◌then◌else◌, select, find?-update_self, find?-update_other, any, length,
  Bool-cases, ==→eq, inl, inr, find?, subst, sym,
}
use veyaan_core_backend.Database.{Database, World}
use veyaan_core_backend.Database.Session.{Tx, modify, commit, ◌>>◌, with_session}
use veyaan_core_backend.Device.Model.{Device, is_trusted}
use veyaan_core_backend.Device.Repository.{find_device, update_last_seen}

-- Whether Valkey has the two hashes of a device, at the time of the round.
pub record Presence : Type 0 where
  pub connected : ℕ → Bool
  pub present : ℕ → Bool

abbrev pub is_unset : Option ℕ → Bool
is_unset none = true
is_unset (some t) = false

abbrev pub is_unrevoked : Device → Bool
is_unrevoked d = is_trusted d.trust_status && is_unset d.revoked_at

unfoldable pub trusted_ids : Database → List ℕ
trusted_ids db = map (λ d. d.id) (select is_unrevoked db.devices)

unfoldable pub stale_ids : Presence → Database → List ℕ
unfolding trusted_ids
stale_ids p db = select (λ i. p.connected i && not (p.present i)) (trusted_ids db)

unfoldable pub touch_all : ℕ → List ℕ → Database → Database
unfolding update_last_seen
touch_all now [] db = db
touch_all now (i ∷ ids) db = touch_all now ids (update_last_seen now i db)

abbrev pub touch : ℕ → List ℕ → Tx (Unit {0})
touch now ids = modify (touch_all now ids) >> commit

abbrev pub touch_listed : ℕ → List ℕ → World → World
touch_listed now [] w = w
touch_listed now (i ∷ ids) w = (with_session (touch now (i ∷ ids)) w).1

-- The number of stale devices, and the world after the second session, if there is one.
unfoldable pub detect_stale_device_presence : Presence → ℕ → World → ℕ × World
unfolding stale_ids touch_all
detect_stale_device_presence p now w =
    let stale = stale_ids p w.database in (length stale, touch_listed now stale w)

abbrev has_id : ℕ → List ℕ → Bool
has_id i ids = any (λ j. j == i) ids

abbrev seen : ℕ → Device → Device
seen now d = record d { last_seen_at = some now }

touched_once :
    (now i j : ℕ) (db : Database)
    → find_device i (update_last_seen now j db)
      ≡ (if j == i then Option.map (seen now) (find_device i db) else find_device i db)
unfolding find_device update_last_seen
touched_once now i j db = elim (Bool-cases (j == i)) [
  | inl same ↦
      let e : j ≡ i = ==→eq j i same in
      rw (same, e) (find?-update_self (λ d. d.id == i) (seen now) db.devices (λ d. refl))
  | inr other ↦ rw other (
      find?-update_other (λ d. d.id == i) (λ d. d.id == j) (seen now) db.devices (λ d. refl)
        (λ d h. ground (arith, other, h)))
]

joined :
    (now : ℕ) (b h : Bool) (o : Option Device)
    → (if h
        then Option.map (seen now) (if b then Option.map (seen now) o else o)
        else (if b then Option.map (seen now) o else o))
      ≡ (if b || h then Option.map (seen now) o else o)
joined now true true none = refl
joined now true true (some d) = refl
joined now true false o = refl
joined now false true o = refl
joined now false false o = refl

touched :
    (now i : ℕ) (ids : List ℕ) (db : Database)
    → find_device i (touch_all now ids db)
      ≡ (if has_id i ids then Option.map (seen now) (find_device i db) else find_device i db)
unfolding touch_all any
touched now i [] db = refl
touched now i (j ∷ ids) db =
    touched now i ids (update_last_seen now j db)
    ∙ rw (touched_once now i j db) (joined now (j == i) (has_id i ids) (find_device i db))

touched_listed :
    (now : ℕ) (ids : List ℕ) (w : World)
    → (touch_listed now ids w).database ≡ touch_all now ids w.database
unfolding touch_all
touched_listed now [] w = refl
touched_listed now (i ∷ ids) w = refl

has_id-select :
    (test : ℕ → Bool) (i : ℕ) (ids : List ℕ) → has_id i (select test ids) ≡ (has_id i ids && test i)
unfolding select any
has_id-select test i [] = refl
has_id-select test i (j ∷ ids) = elim (Bool-cases (j == i)) [
  | inl same ↦
      let e : j ≡ i = ==→eq j i same in
      subst (λ k. has_id i (select test (k ∷ ids)) ≡ (has_id i (k ∷ ids) && test i)) (sym e)
        (ground (arith, has_id-select test i ids))
  | inr other ↦ ground (arith, other, has_id-select test i ids)
]

-- A row that is found is the only one with its id.
pub record IsOnly (i : ℕ) (d : Device) (ds : List Device) : Type 0 where
  pub found : find? (λ k. k.id == i) ds ≡ some d
  pub alone : (k : Device) → Memᴰ k ds → k.id ≡ i → k ≡ d

has_id-trusted :
    (i : ℕ) (ds : List Device)
    → has_id i (map (λ d. d.id) (select is_unrevoked ds))
      ≡ any (λ d. d.id == i && is_unrevoked d) ds
unfolding select any
has_id-trusted i [] = refl
has_id-trusted i (d ∷ ds) = elim (Bool-cases (is_unrevoked d)) [
  | inl t ↦ rw t (ground (arith, has_id-trusted i ds))
  | inr u ↦ rw u (ground (arith, has_id-trusted i ds))
]

any-found :
    (test : Device → Bool) (i : ℕ) (d : Device) (ds : List Device)
    → find? (λ k. k.id == i) ds ≡ some d
    → test d ≡ true
    → any (λ k. k.id == i && test k) ds ≡ true
unfolding find? any
any-found test i d [] found h = ground arith
any-found test i d (k ∷ ds) found h = elim (Bool-cases (k.id == i)) [
  | inl same ↦ let row : k ≡ d = (let at = rw same at found in cc at) in rw (same, row, h) refl
  | inr other ↦ rw other (any-found test i d ds (rw other at found) h)
]

any-only :
    (test : Device → Bool) (i : ℕ) (d : Device) (ds : List Device)
    → ((k : Device) → Memᴰ k ds → k.id ≡ i → k ≡ d)
    → test d ≡ false
    → any (λ k. k.id == i && test k) ds ≡ false
unfolding any
any-only test i d [] alone h = refl
any-only test i d (k ∷ ds) alone h =
    let rest = any-only test i d ds (λ j m e. alone j (Memᴰ.tail m) e) h in
    elim (Bool-cases (k.id == i)) [
      | inl same ↦ let row = alone k (Memᴰ.head refl) (==→eq k.id i same) in rw (same, row, h) rest
      | inr other ↦ rw other rest
    ]

any-test :
    (test : Device → Bool) (i : ℕ) (d : Device) (ds : List Device)
    → IsOnly i d ds
    → any (λ k. k.id == i && test k) ds ≡ test d
any-test test i d ds only = elim (Bool-cases (test d)) [
  | inl h ↦ any-found test i d ds only.found h ∙ sym h
  | inr h ↦ any-only test i d ds only.alone h ∙ sym h
]

found_after :
    (b : Bool) (now : ℕ) (d : Device) (o : Option Device)
    → o ≡ some d
    → (if b then Option.map (seen now) o else o) ≡ some (if b then seen now d else d)
found_after true now d o h = rw h refl
found_after false now d o h = h

-- The detection sets the time at which a device was last seen exactly where its row, the only one with
-- its id, is trusted and not revoked, and Valkey has the hash of its connection and none of its
-- presence; every other row is as it was.
pub find_device-detect_stale :
    (p : Presence) (now i : ℕ) (w : World) (d : Device)
    → IsOnly i d w.database.devices
    → find_device i (detect_stale_device_presence p now w).1.database
      ≡ some (
          if (is_trusted d.trust_status && is_unset d.revoked_at)
            && (p.connected i && not (p.present i))
          then record d { last_seen_at = some now }
          else d)
unfolding detect_stale_device_presence find_device stale_ids trusted_ids
find_device-detect_stale p now i w d only =
    let ids = stale_ids p w.database in
    let stale =
      has_id-select (λ j. p.connected j && not (p.present j)) i (trusted_ids w.database)
      ∙ ap (λ b. b && (p.connected i && not (p.present i)))
          (has_id-trusted i w.database.devices
            ∙ any-test is_unrevoked i d w.database.devices only) in
    ap (find_device i) (touched_listed now ids w)
    ∙ touched now i ids w.database
    ∙ found_after (has_id i ids) now d (find_device i w.database) only.found
    ∙ ap (λ b. some (if b then seen now d else d)) stale
