-- ===== src/Chat/Llm/Keys.antt =====
-- The pool of keys and the turn of each.
use native.Mathlib.Nat.{mod-add-mod, mod-lt, mod-eq_of_lt}
use code_trace.Prelude.{
  ℕ, zero, suc, ◌+◌, ◌%◌, ◌<◌, ◌≡◌, refl, sym, ◌∙◌, ap, true, not, some, List, [], ◌∷◌, length,
  get_elem?, get_elem?-some, Has-keep, Distinct, Distinct-keep, Text, text_units_eq, ◌==◌, arith,
}
use code_trace.Chat.Llm.{key_pool, unique, unique_key_pool, LlmState, get_client}

unique-Distinct : (ks : List Text) → Distinct (unique ks)
unfolding unique
unique-Distinct [] = tt
unique-Distinct (k ∷ ks) = (
  (λ h. other (Has-keep (λ x. not (x == k)) (unique ks) k h).1),
  Distinct-keep (λ x. not (x == k)) (unique ks) (unique-Distinct ks),
)
  where
    other : not (k == k) ≡ true → ⊥
    other h = absurd (cc (rw ((text_units_eq.beq_iff k k).1 refl) at h))

module _ {W : Type 0} (clients : List Text) where
  -- The state after so many calls.
  pub after : ℕ → LlmState W → LlmState W
  after zero s = s
  after (suc n) s = (get_client clients (after n s)).1

  index-after :
      (s : LlmState W)
      → s.next_client_index < length clients
      → (n : ℕ) → (after n s).next_client_index ≡ (s.next_client_index + n) % length clients
  unfolding after get_client
  index-after s h zero =
      sym (mod-eq_of_lt h) ∙ ap (λ i. i % length clients) (same s.next_client_index)
    where
      same : (i : ℕ) → i ≡ i + 0
      same i = omega arith
  index-after s h (suc n) =
      ap (λ i. (i + 1) % length clients) (index-after s h n)
      ∙ mod-add-mod (s.next_client_index + n) (length clients) 1
      ∙ ap (λ i. i % length clients) (next s.next_client_index n)
    where
      next : (i n : ℕ) → i + n + 1 ≡ i + suc n
      next i n = omega arith

  world-after : (s : LlmState W) (n : ℕ) → (after n s).world ≡ s.world
  unfolding after get_client
  world-after s zero = refl
  world-after s (suc n) = world-after s n

some_key : (key extra : Text) → 0 < length (unique_key_pool key extra)
unfolding unique_key_pool key_pool unique
some_key key extra = omega arith

first_key : (key extra : Text) → get_elem? (unique_key_pool key extra) 0 ≡ some key
unfolding unique_key_pool key_pool unique
first_key key extra = refl

abbrev pub start : {W : Type 0} → W → LlmState W
start world = record { next_client_index = 0; world = world }

-- From the start of the program the calls of `getClient` take the keys of the pool in turn: the n-th call
-- takes the key at n modulo their number, there always is one, the first is GEMINI_API_KEY, and no key
-- stands in the pool twice.
pub get_client_rotates :
    {W : Type 0} (key extra : Text) (world : W) (n : ℕ)
    → let clients = unique_key_pool key extra in
      let state = after clients n (start world) in
      Distinct clients
      × (get_elem? clients 0 ≡ some key)
      × ((client : Text) × (get_elem? clients (n % length clients) ≡ some client)
          × ((get_client clients state).0 ≡ some client))
      × (state.world ≡ world)
unfolding get_client unique_key_pool unique
get_client_rotates {W} key extra world n =
    let clients = unique_key_pool key extra in
    let (client, there) =
      get_elem?-some clients (n % length clients) (mod-lt n (some_key key extra)) in
    let index = index-after clients (start world) (some_key key extra) n in
    (
      unique-Distinct (key_pool key extra),
      first_key key extra,
      (
        client,
        there,
        ap (get_elem? clients) (index ∙ ap (λ i. i % length clients) (none_yet n)) ∙ there,
      ),
      world-after clients (start world) n,
    )
  where
    none_yet : (n : ℕ) → 0 + n ≡ n
    none_yet n = omega arith
