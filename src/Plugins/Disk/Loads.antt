-- ===== src/Plugins/Disk/Loads.antt =====
-- The loads that tuned/plugins/plugin_disk.py keeps of a device.
use tuned.Base.{
  ℕ, zero, suc, ◌≤◌, ◌<◌, ◌≡◌, refl, subst, true, false, some, List, [], ◌∷◌, arith, length,
}
use tuned.Base.Text.{ℤ, pos, negsuc, ltz, eqz}
use tuned.Plugins.Disk.{Stats, get_elem?, zip_with, new_state, update_stats, minus, larger, sub_ℕ}

pub get_elem?-some {ℓ} :
    {A : Type ℓ} (l : List A) (i : ℕ) → i < length l → (x : A) × (get_elem? l i ≡ some x)
get_elem?-some [] i h = absurd (omega arith)
get_elem?-some (x ∷ l) zero h = (x, refl)
get_elem?-some (x ∷ l) (suc i) h = get_elem?-some l i (omega arith)

length-zip_with :
    (f : ℤ → ℤ → ℤ) (k : ℕ) (l m : List ℤ)
    → k ≤ length l
    → k ≤ length m
    → k ≤ length (zip_with f l m)
unfolding zip_with
length-zip_with f k [] m h g = h
length-zip_with f k (x ∷ l) [] h g = g
length-zip_with f zero (x ∷ l) (y ∷ m) h g = omega arith
length-zip_with f (suc k) (x ∷ l) (y ∷ m) h g =
    omega (arith, length-zip_with f k l m (omega arith) (omega arith))

get_elem?-zip_with :
    (f : ℤ → ℤ → ℤ) (i : ℕ) (l m : List ℤ) (x y : ℤ)
    → get_elem? l i ≡ some x
    → get_elem? m i ≡ some y
    → get_elem? (zip_with f l m) i ≡ some (f x y)
unfolding zip_with
get_elem?-zip_with f i [] m x y h g = absurd (ground (arith, h))
get_elem?-zip_with f i (a ∷ l) [] x y h g = absurd (ground (arith, g))
get_elem?-zip_with f zero (a ∷ l) (b ∷ m) x y h g =
    let same_x : a ≡ x = cc h in let same_y : b ≡ y = cc g in rw (same_x, same_y) refl
get_elem?-zip_with f (suc i) (a ∷ l) (b ∷ m) x y h g = get_elem?-zip_with f i l m x y h g

-- The maximum at an index is positive, so that it can be divided by.
abbrev pub IsPositive : List ℤ → ℕ → Type 0
IsPositive l i = (v : ℤ) × (get_elem? l i ≡ some v) × (ltz (pos 0) v ≡ true)

larger_positive : (a b : ℤ) → ltz (pos 0) a ≡ true → ltz (pos 0) (larger a b) ≡ true
unfolding larger
larger_positive (pos a) (pos b) h = ground arith
larger_positive (pos a) (negsuc b) h = h
larger_positive (negsuc a) b h = absurd (ground (arith, h))

positive_nonzero : (a : ℤ) → ltz (pos 0) a ≡ true → eqz a (pos 0) ≡ false
positive_nonzero (pos a) h = ground arith
positive_nonzero (negsuc a) h = refl

-- A maximum stays positive, since it only grows.
larger-IsPositive :
    (i : ℕ) (m d : List ℤ) (x : ℤ)
    → IsPositive m i
    → get_elem? d i ≡ some x
    → IsPositive (zip_with larger m d) i
larger-IsPositive i m d x (v, e, h) g =
    (larger v x, get_elem?-zip_with larger i m d v x e g, larger_positive v x h)

-- The lists of values are long enough, and the maxima that are divided by are positive.
pub record IsGood (s : Stats) : Type 0 where
  pub new_long : 6 ≤ length s.new
  pub max_long : 6 ≤ length s.max
  pub read_max : IsPositive s.max 1
  pub write_max : IsPositive s.max 5

pub new_state-IsGood : IsGood new_state.stats
unfolding new_state
new_state-IsGood = record {
  new_long = omega arith;
  max_long = omega arith;
  read_max = (pos 1, refl, refl);
  write_max = (pos 1, refl, refl);
}

sub_self : (a : ℕ) → sub_ℕ a a ≡ pos 0
unfolding sub_ℕ
sub_self a = ground arith

get_elem?-minus_self :
    (i : ℕ) (l : List ℤ) (x : ℤ) → get_elem? (zip_with minus l l) i ≡ some x → x ≡ pos 0
unfolding zip_with minus
get_elem?-minus_self i [] x h = absurd (ground (arith, h))
get_elem?-minus_self zero (pos a ∷ l) x h = ground (arith, h, sub_self a)
get_elem?-minus_self zero (negsuc a ∷ l) x h = ground (arith, h, sub_self a)
get_elem?-minus_self (suc i) (a ∷ l) x h = get_elem?-minus_self i l x h

same_load :
    (i : ℕ) (l k : List ℤ) (x : ℤ) → get_elem? (zip_with minus l k) i ≡ some x → k ≡ l → x ≡ pos 0
same_load i l k x h e =
    get_elem?-minus_self i l x (subst (λ m. get_elem? (zip_with minus l m) i ≡ some x) e h)

-- What an update of the values with a load leads to
pub record Updated (s : Stats) (l : List ℤ) (t : Stats) : Type 0 where
  pub returns : update_stats s l ≡ some t
  pub good : IsGood t
  pub new_is : t.new ≡ l
  -- an equal load has no difference
  pub read_same : s.new ≡ l → t.read.0 ≡ pos 0
  pub write_same : s.new ≡ l → t.write.0 ≡ pos 0
  pub read_positive : ltz (pos 0) t.read.1 ≡ true
  pub write_positive : ltz (pos 0) t.write.1 ≡ true

pub update_stats-Updated :
    (s : Stats) (l : List ℤ) → IsGood s → 6 ≤ length l → (t : Stats) × Updated s l t
unfolding update_stats
update_stats-Updated s l g hl =
    let diff = zip_with minus l s.new in
    let max = zip_with larger s.max diff in
    let long : 6 ≤ length diff = length-zip_with minus 6 l s.new hl g.new_long in
    let (dr, e1) = get_elem?-some diff 1 (omega (arith, long)) in
    let (dw, e3) = get_elem?-some diff 5 (omega (arith, long)) in
    let (mr, e2, pr) = larger-IsPositive 1 s.max diff dr g.read_max e1 in
    let (mw, e4, pw) = larger-IsPositive 5 s.max diff dw g.write_max e3 in
    (
      record { new = l; max = max; read = (dr, mr); write = (dw, mw) },
      record {
        returns =
            rw (update_stats, e1, e2, e3, e4, positive_nonzero mr pr, positive_nonzero mw pw) refl;
        good = record {
          new_long = hl;
          max_long = length-zip_with larger 6 s.max diff g.max_long long;
          read_max = (mr, e2, pr);
          write_max = (mw, e4, pw);
        };
        new_is = refl;
        read_same = same_load 1 l s.new dr e1;
        write_same = same_load 5 l s.new dw e3;
        read_positive = pr;
        write_positive = pw;
      },
    )
