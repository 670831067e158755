-- ===== src/Protocol/Civil/Months.antt =====
-- The loops of AddCalendarMonths end, in a month of a year.
use subscription_bridge.Prelude.{
  ℕ, zero, suc, ◌+◌, ◌-◌, ◌*◌, ◌≤◌, ◌<◌, ◌≡◌, refl, ap, true, false, Bool-cases, inl, inr, ℤ, pos,
  negsuc, ltb, ltb_ℤ, arith,
}
use subscription_bridge.Protocol.Civil.{
  plus, minus, rounds, carry_years, borrow_years, normal_month,
}

plus-plus : (y : ℤ) (k : ℕ) → plus (plus y 1) k ≡ plus y (suc k)
plus-plus (pos n) k = ground arith
plus-plus (negsuc n) k = ground arith

minus-minus : (y : ℤ) (k : ℕ) → minus (minus y 1) k ≡ minus y (suc k)
minus-minus (pos n) k = ground arith
minus-minus (negsuc n) k = ground arith

plus_zero : (y : ℤ) → plus y 0 ≡ y
plus_zero (pos n) = ground arith
plus_zero (negsuc n) = ground arith

minus_zero : (y : ℤ) → minus y 0 ≡ y
minus_zero (pos n) = ground arith
minus_zero (negsuc n) = ground arith

-- What the first loop makes of a month from 1 on.
record Carried (year : ℤ) (month : ℕ) (out : ℤ × ℤ) : Type 0 where
  years : ℕ
  left : ℕ
  out_is : out ≡ (plus year years, pos left)
  count : month ≡ left + 12 * years
  least : 1 ≤ month → 1 ≤ left
  most : left ≤ 12

carry_years-Carried :
    (fuel : ℕ) (year : ℤ) (month : ℕ)
    → month ≤ fuel
    → Carried year month (carry_years fuel year (pos month))
unfolding carry_years
carry_years-Carried zero year month h = record {
  years = 0;
  left = month;
  out_is = rw (plus_zero year) refl;
  count = omega arith;
  least = λ l. l;
  most = omega (arith, h);
}
carry_years-Carried (suc fuel) year month h = elim (Bool-cases (ltb 12 month)) [
  | inr small ↦ rw small (record {
    years = 0;
    left = month;
    out_is = rw (plus_zero year) refl;
    count = omega arith;
    least = λ l. l;
    most = ground (arith, small);
  })
  | inl big ↦
      let far : 12 < month = ground (arith, big) in
      let c = carry_years-Carried fuel (plus year 1) (month - 12) (omega (arith, h, far)) in
      let step : minus (pos month) 12 ≡ pos (month - 12) = ground (arith, far) in
      rw (big, step)
        (record {
          years = suc c.years;
          left = c.left;
          out_is = rw (c.out_is, plus-plus year c.years) refl;
          count = omega (arith, c.count, far);
          least = λ l. c.least (omega (arith, far));
          most = c.most;
        })
]

-- What the second loop makes of a month up to 12.
record Borrowed (year month : ℤ) (out : ℤ × ℤ) : Type 0 where
  years : ℕ
  left : ℕ
  out_is : out ≡ (minus year years, pos left)
  count : plus month (12 * years) ≡ pos left
  least : 1 ≤ left
  most : left ≤ 12

-- What is missing to month 1.
abbrev debt : ℤ → ℕ
debt (pos zero) = 1
debt (pos (suc n)) = 0
debt (negsuc n) = suc (suc n)

plus_twelve : (m : ℤ) (k : ℕ) → plus (plus m 12) (12 * k) ≡ plus m (12 * suc k)
plus_twelve (pos n) k = ground arith
plus_twelve (negsuc n) k = ground arith

debt_pos : (fuel k : ℕ) → 1 ≤ fuel → debt (pos k) ≤ fuel
debt_pos fuel zero h = h
debt_pos fuel (suc k) h = omega arith

borrowed-debt :
    (fuel : ℕ) (m : ℤ)
    → ltb_ℤ m (pos 1) ≡ true
    → debt m ≤ suc fuel
    → (debt (plus m 12) ≤ fuel) × (ltb_ℤ (plus m 12) (pos 13) ≡ true)
borrowed-debt fuel (pos zero) h d = ground arith
borrowed-debt fuel (pos (suc n)) h d = absurd (ground arith)
borrowed-debt fuel (negsuc n) h d = elim (Bool-cases (ltb n 12)) [
  | inl near ↦
      let k : 12 - n - 1 < 13 = omega arith in
      let e : 1 ≤ fuel = omega (arith, d) in
      rw near (debt_pos fuel (12 - n - 1) e, ground (arith, k))
  | inr far ↦ let f : 12 ≤ n = ground (arith, far) in rw far (omega (arith, d, f), refl)
]

done-Borrowed :
    (year m : ℤ) → ltb_ℤ m (pos 13) ≡ true → ltb_ℤ m (pos 1) ≡ false → Borrowed year m (year, m)
done-Borrowed year (negsuc n) low high = absurd (ground arith)
done-Borrowed year (pos n) low high = record {
  years = 0;
  left = n;
  out_is = rw (minus_zero year) refl;
  count = ground arith;
  least = ground arith;
  most = ground arith;
}

borrow_years-Borrowed :
    (fuel : ℕ) (year m : ℤ)
    → debt m ≤ fuel
    → ltb_ℤ m (pos 13) ≡ true
    → Borrowed year m (borrow_years fuel year m)
unfolding borrow_years
borrow_years-Borrowed zero year (pos zero) h low = absurd (omega (arith, h))
borrow_years-Borrowed zero year (pos (suc n)) h low =
    done-Borrowed year (pos (suc n)) low (ground arith)
borrow_years-Borrowed zero year (negsuc n) h low = absurd (omega (arith, h))
borrow_years-Borrowed (suc fuel) year m h low = elim (Bool-cases (ltb_ℤ m (pos 1))) [
  | inr high ↦ rw high (done-Borrowed year m low high)
  | inl short ↦
      let (debt', low') = borrowed-debt fuel m short h in
      let b = borrow_years-Borrowed fuel (minus year 1) (plus m 12) debt' low' in
      rw short (record {
        years = suc b.years;
        left = b.left;
        out_is = rw (b.out_is, minus-minus year b.years) refl;
        count = rw (← plus_twelve m b.years) b.count;
        least = b.least;
        most = b.most;
      })
]

debt-rounds : (m : ℤ) → debt m ≤ rounds m
debt-rounds (pos zero) = omega arith
debt-rounds (pos (suc n)) = omega arith
debt-rounds (negsuc n) = omega arith

-- Whatever the year and the month, negative ones included: both loops end within the rounds that they
-- are given, in a month `left` from 1 to 12; `k` years are added and `j` years taken off, for 12 `k`
-- months taken off and 12 `j` months added.
pub normal_month-total :
    (year month : ℤ)
    → (left k j : ℕ) × (normal_month year month ≡ (minus (plus year k) j, pos left))
      × (1 ≤ left)
      × (left ≤ 12)
      × (plus month (12 * j) ≡ pos (left + 12 * k))
unfolding normal_month
normal_month-total year (pos n) =
    let c = carry_years-Carried (suc n) year n (omega arith) in
    let low : ltb_ℤ (pos c.left) (pos 13) ≡ true = ground (arith, c.most) in
    let b =
      borrow_years-Borrowed (rounds (pos c.left)) (plus year c.years) (pos c.left)
        (debt-rounds (pos c.left)) low in
    let same : c.left + 12 * b.years ≡ b.left = ground (arith, b.count) in
    (
      b.left,
      c.years,
      b.years,
      rw (c.out_is, b.out_is) refl,
      b.least,
      b.most,
      ap pos (omega (arith, same, c.count)),
    )
normal_month-total year (negsuc n) =
    let b = borrow_years-Borrowed (suc (suc n)) year (negsuc n) (omega arith) refl in
    (
      b.left,
      0,
      b.years,
      rw (plus_zero year, b.out_is) refl,
      b.least,
      b.most,
      rw b.count (ap pos (omega arith)),
    )
