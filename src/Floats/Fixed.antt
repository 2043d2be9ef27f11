-- ===== src/Floats/Fixed.antt =====
-- A concrete arithmetic for tests and examples: fixed point, in units of 1e-7, with the products
-- and quotients cut towards zero. It has no NaN and no infinity.
use depotflux_demo.Prelude.{
  ℕ, suc, ◌+◌, ◌*◌, ◌/◌, ◌^◌, ◌≡◌, not, true, some, arith, ◌==◌, refl, sym, ap, ◌∙◌, false,
}
use depotflux_demo.Prelude.Int.{ℤ, pos, negsuc, sub_ℕ, pos_part, neg_part, ltb_ℤ, ◌+ℤ◌, ◌-ℤ◌}
use depotflux_demo.Floats.{Floats, ExactTenths}

abbrev unit : ℕ
unit = 10 ^ 7

abbrev pub magnitude : ℤ → ℕ
magnitude (pos n) = n
magnitude (negsuc n) = suc n

abbrev opposite : ℤ → ℤ
opposite z = sub_ℕ (neg_part z) (pos_part z)

abbrev signed : (ℕ → ℕ → ℕ) → ℤ → ℤ → ℤ
signed f (pos a) (pos b) = pos (f a b)
signed f (pos a) (negsuc b) = sub_ℕ 0 (f a (suc b))
signed f (negsuc a) (pos b) = sub_ℕ 0 (f (suc a) b)
signed f (negsuc a) (negsuc b) = pos (f (suc a) (suc b))

abbrev nearest : ℤ → ℤ
nearest (pos a) = pos ((a + unit / 2) / unit)
nearest (negsuc a) = sub_ℕ 0 ((suc a + unit / 2) / unit)

instance abbrev pub fixed : Floats
fixed = record {
  Float = ℤ;
  of_int = signed (λ a b. a * b) (pos unit);
  tenth = pos (unit / 10);
  tolerance = pos 1;
  add = ◌+ℤ◌;
  sub = ◌-ℤ◌;
  mul = signed (λ a b. a * b / unit);
  div = signed (λ a b. a * unit / b);
  neg = opposite;
  abs = λ z. pos (magnitude z);
  lt = ltb_ℤ;
  le = λ x y. not (ltb_ℤ y x);
  is_zero = λ z. magnitude z == 0;
  is_finite = λ _. true;
  round_int = λ z. some (nearest z);
}

scaled : (n : ℕ) → unit * n * 1000000 / unit ≡ 1000000 * n
scaled n = omega arith

flat : (x : ℤ) → ltb_ℤ x (pos 0) ≡ false → ltb_ℤ (opposite x) (pos 0) ≡ false → x ≡ pos 0
flat x p q = ground arith

flat_nearest :
    (x v : ℤ)
    → x ≡ pos 0
    → some (nearest (signed (λ a b. a * unit / b) x (pos 1000000))) ≡ some v
    → v ≡ pos 0
flat_nearest x v e r =
    let zeros : some v ≡ some (pos 0) =
      sym r ∙ ap (λ y. some (nearest (signed (λ a b. a * unit / b) y (pos 1000000)))) e in
    cc zeros

pub fixed-ExactTenths : ExactTenths ⦃F = fixed⦄
unfolding ◌-ℤ◌
fixed-ExactTenths = record {
  zero_in_tenths = refl;
  flat_in_tenths = λ x v p q r. flat_nearest x v (flat x p q) r;
  is_zero-kilowatts = λ n h. rw scaled (ground arith);
  import_in_tenths = λ n h. rw scaled (ground arith);
  export_in_tenths = λ n h. rw scaled (ground arith);
}
