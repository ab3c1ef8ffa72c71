-- ===== src/Space/Search.antt =====
-- `sort.Search` of the Go library: the binary search that internal/memory/memory.go calls.
use gonidbg.Base.{
  ℕ, zero, suc, ◌+◌, ◌-◌, ◌/◌, ◌≤◌, ◌<◌, ◌≡◌, Bool, true, false, arith, ltb, if◌then◌else◌,
  Bool-cases, ltb→lt, inl, inr,
}

-- `for i < j { h := (i+j)/2; if !f(h) { i = h+1 } else { j = h } }`, on fuel.
pub search_loop : ℕ → (ℕ → Bool) → ℕ → ℕ → ℕ
search_loop zero f i j = i
search_loop (suc fuel) f i j =
    let h = (i + j) / 2 in
    let right = search_loop fuel f (h + 1) j in
    let left = search_loop fuel f i h in if ltb i j then (if f h then left else right) else i

-- Each round shortens the range, so its length is fuel enough.
unfoldable pub sort_search : ℕ → (ℕ → Bool) → ℕ
unfolding search_loop
sort_search n f = search_loop n f 0 n

-- Once true, true from there on.
abbrev pub Rises : (ℕ → Bool) → ℕ → Type 0
Rises f n = (i j : ℕ) → i ≤ j → j < n → f i ≡ true → f j ≡ true

-- `k` is where `f` turns true below `n`.
pub record Turns (f : ℕ → Bool) (n k : ℕ) : Type 0 where
  pub bounded : k ≤ n
  pub below : (i : ℕ) → i < k → f i ≡ false
  pub here : k < n → f k ≡ true

not_above :
    (f : ℕ → Bool) (n : ℕ) → Rises f n → (i j : ℕ) → i ≤ j → j < n → f j ≡ false → f i ≡ false
not_above f n rises i j ij jn down = ground (arith, rises i j ij jn)

loop-Turns :
    (fuel : ℕ) (f : ℕ → Bool) (n i j : ℕ)
    → j - i ≤ fuel
    → i ≤ j
    → j ≤ n
    → Rises f n
    → ((k : ℕ) → k < i → f k ≡ false)
    → (j < n → f j ≡ true)
    → Turns f n (search_loop fuel f i j)
unfolding search_loop
loop-Turns zero f n i j h ij jn rises low high = record {
  bounded = omega arith;
  below = low;
  here = λ k. let e : i ≡ j = omega arith in rw e (high (omega arith));
}
loop-Turns (suc fuel) f n i j h ij jn rises low high = elim (Bool-cases (ltb i j)) [
  | inl more ↦
      let less = ltb→lt i j more in
      elim (Bool-cases (f ((i + j) / 2))) [
        | inl up ↦
            rw (more, up)
              (loop-Turns fuel f n i ((i + j) / 2) (omega arith) (omega arith) (omega arith) rises
                low (λ _. up))
        | inr down ↦
            rw (more, down)
              (loop-Turns fuel f n ((i + j) / 2 + 1) j (omega arith) (omega arith) jn rises
                (λ k p. not_above f n rises k ((i + j) / 2) (omega arith) (omega arith) down) high)
      ]
  | inr done ↦ rw done (record {
    bounded = omega arith;
    below = low;
    here = λ k. let e : i ≡ j = ground arith in rw e (high (ground arith));
  })
]

-- For a test that stays true once it is true, `sort.Search` finds where it turns true.
pub sort_search-Turns : (n : ℕ) (f : ℕ → Bool) → Rises f n → Turns f n (sort_search n f)
unfolding sort_search
sort_search-Turns n f rises =
    loop-Turns n f n 0 n (omega arith) (omega arith) (omega arith) rises (λ k p. elim p [ ])
      (λ p. absurd (omega arith))

-- There is one such place.
pub Turns-unique : (f : ℕ → Bool) (n k l : ℕ) → Turns f n k → Turns f n l → k ≡ l
Turns-unique f n k l p q =
    ground (arith, p.below l, q.below k, p.here, q.here, p.bounded, q.bounded)
