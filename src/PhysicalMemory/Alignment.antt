-- ===== src/PhysicalMemory/Alignment.antt =====
-- kernel/physical_memory/src/lib.rs: which frame indices lie on a page of `k` small frames.
use native.Mathlib.Nat.{
  mul-div-mul_right, mod-eq-sub-mul-div, mod-lt, add-mul-mod_self_right, mod-add-div', zero-mod,
}
use muffin.Base.{
  ℕ, ◌+◌, ◌-◌, ◌*◌, ◌/◌, ◌%◌, ◌≤◌, ◌<◌, ◌≡◌, ap, ◌∙◌, false, ◌==◌, ltb, if◌then◌else◌, arith,
  Bool-cases, inl, inr,
}
use muffin.PhysicalMemory.Region.{MemoryRegion, small_size}
use muffin.PhysicalMemory.Manager.{align_up}

-- The frame at index `i` starts a page of `k` small frames.
abbrev pub IsAligned : ℕ → MemoryRegion → ℕ → Type 0
IsAligned k x i = (x.base_addr + i * small_size) % (k * small_size) ≡ 0

scaled_mod : (k n : ℕ) → 0 < k → (n * small_size) % (k * small_size) ≡ (n % k) * small_size
scaled_mod k n h =
    let q : n * small_size / (k * small_size) ≡ n / k = mul-div-mul_right n k (omega arith) in
    let e = mod-eq-sub-mul-div (n * small_size) (k * small_size) in
    let f = mod-eq-sub-mul-div n k in
    let g = ap (λ t. k * small_size * t) q in omega (arith, e, f, g)

-- In units of small frames, from the region's base.
unit_mod :
    (k i : ℕ) (x : MemoryRegion)
    → 0 < k
    → x.base_addr % small_size ≡ 0
    → (x.base_addr + i * small_size) % (k * small_size)
      ≡ ((x.base_addr / small_size + i) % k) * small_size
unit_mod k i x h b =
    let e : x.base_addr + i * small_size ≡ (x.base_addr / small_size + i) * small_size =
      omega arith in
    rw e (scaled_mod k (x.base_addr / small_size + i) h)

align_up_units :
    (k start : ℕ) (x : MemoryRegion)
    → 0 < k
    → x.base_addr % small_size ≡ 0
    → align_up k x start ≡ (
        if (x.base_addr / small_size + start) % k == 0
        then start
        else start + (k - (x.base_addr / small_size + start) % k))
unfolding align_up
align_up_units k start x h b =
    ground (arith, unit_mod k start x h b, mod-lt (x.base_addr / small_size + start) h)

next_multiple : (k n : ℕ) → 0 < k → (n + (k - n % k)) % k ≡ 0
next_multiple k n h =
    let e : n + (k - n % k) ≡ 0 + (n / k + 1) * k = omega (arith, mod-add-div' n k, mod-lt n h) in
    rw e (add-mul-mod_self_right 0 (n / k + 1) k ∙ zero-mod k)

pub align_up-IsAligned :
    (k start : ℕ) (x : MemoryRegion)
    → 0 < k
    → x.base_addr % small_size ≡ 0
    → IsAligned k x (align_up k x start) × (start ≤ align_up k x start)
align_up-IsAligned k start x h b =
    let n : ℕ = x.base_addr / small_size + start in
    let split : x.base_addr / small_size + (start + (k - n % k)) ≡ n + (k - n % k) = omega arith in
    elim (Bool-cases (n % k == 0)) [
      | inl on ↦
          let is : align_up k x start ≡ start = ground (arith, align_up_units k start x h b) in
          rw is (ground (arith, unit_mod k start x h b), omega arith)
      | inr off ↦
          let is : align_up k x start ≡ start + (k - n % k) =
            ground (arith, align_up_units k start x h b) in
          rw is (
            ground (
              arith,
              unit_mod k (start + (k - n % k)) x h b,
              next_multiple k n h,
              ap (λ t. t % k) split,
            ),
            omega arith,
          )
    ]

mul_gap : (a b k : ℕ) → 0 < k → b * k ≤ a * k → b ≤ a
mul_gap a b k h le = elim (Bool-cases (ltb a b)) [
  | inl small ↦
      let up : a + 1 ≤ b = ground arith in
      let more : (a + 1) * k ≤ b * k = grind arith in absurd (omega arith)
  | inr big ↦ ground arith
]

multiple_gap : (m n k : ℕ) → 0 < k → m % k ≡ 0 → n % k ≡ 0 → n ≤ m → (q : ℕ) × (m ≡ n + q * k)
multiple_gap m n k h em en le =
    let le' : n / k ≤ m / k =
      mul_gap (m / k) (n / k) k h (omega (arith, mod-add-div' m k, mod-add-div' n k)) in
    let split : m / k ≡ n / k + (m / k - n / k) = omega arith in
    (m / k - n / k, omega (arith, mod-add-div' m k, mod-add-div' n k, ap (λ t. t * k) split))

next_multiple-le :
    (m n k : ℕ) → 0 < k → m % k ≡ 0 → n ≤ m → (n % k == 0) ≡ false → n + (k - n % k) ≤ m
next_multiple-le m n k h em le off =
    let lt : n / k < m / k = elim (Bool-cases (ltb (n / k) (m / k))) [
      | inl ok_lt ↦ ground arith
      | inr not_lt ↦
          let le' : m / k * k ≤ n / k * k = grind arith in
          absurd (ground (arith, mod-add-div' m k, mod-add-div' n k))
    ] in
    let le'' : (n / k + 1) * k ≤ m / k * k = grind arith in
    omega (arith, mod-add-div' m k, mod-add-div' n k)

-- From the aligned start on, the aligned indices are those that the loop visits.
pub aligned_visited :
    (k start i : ℕ) (x : MemoryRegion)
    → 0 < k
    → x.base_addr % small_size ≡ 0
    → start ≤ i
    → IsAligned k x i
    → (q : ℕ) × (i ≡ align_up k x start + q * k)
aligned_visited k start i x h b le al =
    let n : ℕ = x.base_addr / small_size + start in
    let m : ℕ = x.base_addr / small_size + i in
    let on_page : m % k ≡ 0 = omega (arith, unit_mod k i x h b) in
    elim (Bool-cases (n % k == 0)) [
      | inl on ↦
          let is : align_up k x start ≡ start = ground (arith, align_up_units k start x h b) in
          let (q, e) = multiple_gap m n k h on_page (ground arith) (omega arith) in (q, omega arith)
      | inr off ↦
          let is : align_up k x start ≡ start + (k - n % k) =
            ground (arith, align_up_units k start x h b) in
          let (q, e) =
            multiple_gap m (n + (k - n % k)) k h on_page (next_multiple k n h)
              (next_multiple-le m n k h on_page (omega arith) off) in
          (q, omega arith)
    ]

-- Whole pages further on, the index is aligned too.
pub IsAligned-add : (k i q : ℕ) (x : MemoryRegion) → IsAligned k x i → IsAligned k x (i + q * k)
IsAligned-add k i q x al =
    let split : x.base_addr + (i + q * k) * small_size
        ≡ x.base_addr + i * small_size + q * (k * small_size) =
      omega arith in
    rw split (add-mul-mod_self_right (x.base_addr + i * small_size) q (k * small_size) ∙ al)
