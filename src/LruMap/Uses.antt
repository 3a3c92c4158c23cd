-- ===== src/LruMap/Uses.antt =====
-- public/lru_map_container.h: sequences of calls against values and an order of keys.
use frame_work.Prelude.{
  ℕ, ◌≡◌, refl, ap, ap₂, ◌∙◌, Bool, Option, none, some, List, [], ◌∷◌, if◌then◌else◌,
}
use frame_work.LruMap.{LruMap, assign, get, add, remove, clear, lru_tail}
use frame_work.LruMap.Order.{
  member, order_get, order_add, order_remove, last, value_of, IsLru, get-IsLru, add-IsLru,
  remove-IsLru, clear-IsLru, ends-IsLru,
}

pub data Use {ℓ} (A : Type ℓ) : Type ℓ where
  gets : ℕ → Bool → Use A
  adds : ℕ → A → Use A
  removes : ℕ → Use A
  clears : Use A
  oldest : Use A

module _ {ℓ} {A : Type ℓ} where
  -- The values that get and lru_tail point to, in turn.
  unfoldable pub run : LruMap A → List (Use A) → List (Option A)
  run m [] = []
  run m (gets key lru_touch ∷ us) = let (out, m') = get m key lru_touch in out ∷ run m' us
  run m (adds key value ∷ us) = run (add m key value).1 us
  run m (removes key ∷ us) = run (remove m key) us
  run m (clears ∷ us) = run (clear m) us
  run m (oldest ∷ us) = lru_tail m ∷ run m us

  -- The same with the values and the keys, the one touched last in front.
  unfoldable pub ordered_run : (ℕ → Option A) → List ℕ → List (Use A) → List (Option A)
  ordered_run values xs [] = []
  ordered_run values xs (gets key lru_touch ∷ us) =
      values key ∷ ordered_run values (order_get key lru_touch xs) us
  ordered_run values xs (adds key value ∷ us) =
      ordered_run (if member key xs then values else assign values key (some value))
        (order_add key xs) us
  ordered_run values xs (removes key ∷ us) =
      ordered_run (if member key xs then assign values key none else values) (order_remove key xs)
        us
  ordered_run values xs (clears ∷ us) = ordered_run (λ key. none) [] us
  ordered_run values xs (oldest ∷ us) = value_of values (last xs) ∷ ordered_run values xs us

  -- On a map whose nodes are linked in the order of a list of its keys, any sequence of get, add,
  -- remove, clear and lru_tail hands out what the values and the list hand out: get with lru_touch
  -- puts its key in front, add puts a new key in front and leaves a known one, remove takes its
  -- key out, and lru_tail points to the value of the last key.
  pub run-IsLru :
      (us : List (Use A)) {m : LruMap A} (xs : List ℕ)
      → IsLru m xs
      → run m us ≡ ordered_run m.values xs us
  unfolding run ordered_run clear
  run-IsLru [] xs w = refl
  run-IsLru (gets key lru_touch ∷ us) {m} xs w =
      let r = get-IsLru key lru_touch w in
      ap₂ ◌∷◌ r.0 (
        run-IsLru us {m = (get m key lru_touch).1} (order_get key lru_touch xs) r.2
        ∙ ap (λ v. ordered_run v (order_get key lru_touch xs) us) r.1)
  run-IsLru (adds key value ∷ us) {m} xs w =
      let r = add-IsLru key value w in
      run-IsLru us {m = (add m key value).1} (order_add key xs) r.2
      ∙ ap (λ v. ordered_run v (order_add key xs) us) r.1
  run-IsLru (removes key ∷ us) {m} xs w =
      let r = remove-IsLru key w in
      run-IsLru us {m = remove m key} (order_remove key xs) r.1
      ∙ ap (λ v. ordered_run v (order_remove key xs) us) r.0
  run-IsLru (clears ∷ us) {m} xs w = run-IsLru us {m = clear m} [] (clear-IsLru m)
  run-IsLru (oldest ∷ us) {m} xs w = ap₂ ◌∷◌ (ends-IsLru xs w).1 (run-IsLru us xs w)
