-- ===== src/Utils/Cpulist/Packing.antt =====
-- What tuned/utils/commands.py packs into ranges, it unpacks to the same CPUs.
pub mod Numbers
use tuned.Base.{
  ℕ, zero, suc, ◌+◌, ◌-◌, ◌≤◌, String, ◌<>◌, ◌≡◌, refl, sym, ap, ◌∙◌, Bool, true, false, some, List,
  [], ◌∷◌, ◌++◌, if_intro, eqb, nat_eq, arith, All,
}
use tuned.Base.Text.{split}
use tuned.Base.Text.Decimal.{show, IsDigit, IsDigits, show-IsDigits, int-show}
use tuned.Utils.Masks.{sorted_set}
use tuned.Utils.Masks.RoundTrip.{
  Ascending, weaken, same_members, sorted_set-Ascending, contains-sorted_set,
}
use tuned.Utils.Cpulist.{
  CpuSpec, cpu_items, cpu_text, no_cpus, Scan, scan_item, scan_items, is_hexmask, is_negation,
  is_blank, expand_value, expand_values, pack_cpus, pack_from, piece, range, range_from, int_piece,
  range_of, unpack_items, cpulist_unpack, cpulist_pack, start_scan, found_values, remove_cpu,
  remove_negated, strip_quotes_left, strip_quotes_right,
}
use tuned.Base.Text.Pieces.{IsLow, digits-IsLow, dash-IsLow, cons-dash, split-dash, split-digits}
use mathlib.Core.List.{append-nil, append_assoc}
use tuned.Base.{Option-cases, inl, inr}
use mathlib.Core.Option.{some-injective}
use Prim.Native.Char.{Char}
use tuned.Base.Text.Decimal.{show-cons}
use tuned.Base.Text.{digit_value}
use tuned.Base.{subst}
use tuned.Utils.Cpulist.{found_values}

-- A value that is neither empty nor a mask nor a negation.
IsPlain : String → Type 0
IsPlain v = (is_hexmask v ≡ false) × (is_negation v ≡ false) × (is_blank v ≡ false)

scan_item-plain :
    (v : String) (s : Scan)
    → s.hexmask ≡ false
    → IsPlain v
    → scan_item s v ≡ some (record s { found = s.found ++ (v ∷ []) })
unfolding scan_item IsPlain
scan_item-plain v s off (x, n, b) = rw (off, x, n, b) refl

scan_items-plain :
    (l : List String) (s : Scan)
    → s.hexmask ≡ false
    → All IsPlain l
    → scan_items s l ≡ some (record s { found = s.found ++ l })
unfolding scan_items
scan_items-plain [] s off h = ap (λ l. some (record s { found = l })) (sym (append-nil s.found))
scan_items-plain (v ∷ l) s off (plain, h) =
    rw (scan_items, scan_item-plain v s off plain)
      (scan_items-plain l (record s { found = s.found ++ (v ∷ []) }) off h
        ∙ ap (λ k. some (record s { found = k })) (append_assoc s.found (v ∷ []) l))

plain_cons : (c : Char) (t : String) → IsDigit 10 c → IsLow t → IsPlain (String.◌∷◌ c t)
unfolding IsPlain is_hexmask is_negation is_blank digit_value
plain_cons c String.[] (d, (e, h)) low = (refl, ground arith, refl)
plain_cons c (String.◌∷◌ b t) (d, (e, h)) (lo, low) = (ground arith, ground arith, refl)

show-IsPlain : (n : ℕ) → IsPlain (show n)
show-IsPlain n =
    let (c, (t, e)) = show-cons n in
    let (d, h) : IsDigits 10 (String.◌∷◌ c t) = subst (IsDigits 10) e (show-IsDigits n) in
    subst IsPlain (sym e) (plain_cons c t d (digits-IsLow t h))

dash-IsPlain : (m n : ℕ) → IsPlain (show m <> ("-" <> show n))
dash-IsPlain m n =
    let (c, (t, e)) = show-cons m in
    let (d, h) : IsDigits 10 (String.◌∷◌ c t) = subst (IsDigits 10) e (show-IsDigits m) in
    subst (λ s. IsPlain (s <> ("-" <> show n))) (sym e)
      (subst IsPlain (sym (cons-dash c t (show n))) (
        plain_cons c (t <> ("-" <> show n)) d
          (dash-IsLow t (show n) (digits-IsLow t h) (digits-IsLow (show n) (show-IsDigits n)))))

piece-IsPlain : (first last : ℕ) (many : Bool) → IsPlain (piece first last many)
unfolding piece
piece-IsPlain first last true = dash-IsPlain first last
piece-IsPlain first last false = show-IsPlain first

pack-IsPlain :
    (first last : ℕ) (many : Bool) (l : List ℕ) → All IsPlain (pack_from first last many l)
unfolding pack_from
pack-IsPlain first last many [] = (piece-IsPlain first last many, tt)
pack-IsPlain first last many (n ∷ l) =
    if_intro (All IsPlain) (eqb n (suc last)) _ _ (λ _. pack-IsPlain first n true l)
      (λ _. (piece-IsPlain first last many, pack-IsPlain n n false l))

int_piece-show : (n : ℕ) → int_piece (show n) ≡ some n
unfolding int_piece
int_piece-show n = rw (int_piece, int-show n) refl

range_one : (n : ℕ) → range n n ≡ n ∷ []
unfolding range range_from
range_one n = ap (λ k. range_from k n) {y = 1} (omega arith)

range_from-suc : (k lo m : ℕ) → m ≡ lo + k → range_from (suc k) lo ≡ range_from k lo ++ (m ∷ [])
unfolding range_from
range_from-suc zero lo m e = ap (λ x. x ∷ []) (omega arith)
range_from-suc (suc k) lo m e = ap (λ l. lo ∷ l) (range_from-suc k (suc lo) m (omega arith))

range-suc : (lo hi n : ℕ) → lo ≤ hi → n ≡ suc hi → range lo n ≡ range lo hi ++ (n ∷ [])
unfolding range
range-suc lo hi n h e =
    ap (λ k. range_from k lo) {y = suc (hi + 1 - lo)} (omega arith)
    ∙ range_from-suc (hi + 1 - lo) lo n (omega arith)

expand_value-plain : (v : String) → IsPlain v → expand_value v ≡ range_of (split b'-' v)
unfolding expand_value IsPlain
expand_value-plain v (x, n, b) = rw x refl

expand-piece :
    (first last : ℕ) (many : Bool)
    → (many ≡ false → first ≡ last)
    → expand_value (piece first last many) ≡ some (range first last)
unfolding piece range_of
expand-piece first last true m =
    expand_value-plain (show first <> ("-" <> show last)) (dash-IsPlain first last)
    ∙ ap range_of (
        split-dash 10 (show first) (show last) (show-IsDigits first)
        ∙ ap (λ l. show first ∷ l) (split-digits 10 (show last) (show-IsDigits last)))
    ∙ rw (range_of, int_piece-show first, int_piece-show last) refl
expand-piece first last false m =
    expand_value-plain (show first) (show-IsPlain first)
    ∙ ap range_of (split-digits 10 (show first) (show-IsDigits first))
    ∙ rw (range_of, int_piece-show first)
        (ap some (sym (range_one first) ∙ ap (range first) (m refl)))

expand-cons :
    (v : String) (l : List String) (xs ys : List ℕ)
    → expand_value v ≡ some xs
    → expand_values l ≡ some ys
    → expand_values (v ∷ l) ≡ some (xs ++ ys)
unfolding expand_values
expand-cons v l xs ys h k = rw (expand_values, h, k) refl

nothing : expand_values [] ≡ some []
unfolding expand_values
nothing = refl

expand-pack :
    (first last : ℕ) (many : Bool) (l : List ℕ)
    → first ≤ last
    → (many ≡ false → first ≡ last)
    → expand_values (pack_from first last many l) ≡ some (range first last ++ l)
unfolding pack_from
expand-pack first last many [] h m =
    expand-cons (piece first last many) [] (range first last) [] (expand-piece first last many m)
      nothing
expand-pack first last many (n ∷ l) h m =
    if_intro (λ p. expand_values p ≡ some (range first last ++ (n ∷ l))) (eqb n (suc last)) _ _
      (λ e.
        expand-pack first n true l (ground (arith, e)) (λ f. absurd (ground (arith, f)))
        ∙ ap some (
            ap (λ r. r ++ l) (range-suc first last n h (ground (arith, e)))
            ∙ append_assoc (range first last) (n ∷ []) l))
      (λ _.
        expand-cons (piece first last many) (pack_from n n false l) (range first last) (n ∷ l)
          (expand-piece first last many m)
          (expand-pack n n false l (omega arith) (λ _. refl)
            ∙ ap (λ r. some (r ++ l)) (range_one n)))

-- What is packed is read back as the same CPUs, if they are sorted and each stands once.
unpack_items-pack_cpus : (l : List ℕ) → Ascending 0 l → unpack_items (pack_cpus l) ≡ l
unfolding unpack_items pack_cpus
unpack_items-pack_cpus [] a = refl
unpack_items-pack_cpus (x ∷ l) a =
    rw
      (
        unpack_items,
        scan_items-plain (pack_from x x false l) start_scan refl (pack-IsPlain x x false l),
        expand-pack x x false l (omega arith) (λ _. refl),
        range_one x,
      )
      (same_members 0 (sorted_set (x ∷ l)) (x ∷ l) (sorted_set-Ascending (x ∷ l)) a
        (contains-sorted_set (x ∷ l)))

remove_cpu-Ascending : (k n : ℕ) (l : List ℕ) → Ascending k l → Ascending k (remove_cpu n l)
unfolding remove_cpu Ascending
remove_cpu-Ascending k n [] a = tt
remove_cpu-Ascending k n (x ∷ xs) (h, a) =
    if_intro (Ascending k) (eqb x n) _ _ (λ _. weaken k (suc x) xs (omega arith) a)
      (λ _. (h, remove_cpu-Ascending (suc x) n xs a))

remove_negated-Ascending : (ns l : List ℕ) → Ascending 0 l → Ascending 0 (remove_negated ns l)
unfolding remove_negated
remove_negated-Ascending [] l a = a
remove_negated-Ascending (n ∷ ns) l a =
    remove_negated-Ascending ns (remove_cpu n l) (remove_cpu-Ascending 0 n l a)

-- What `cpulist_unpack` makes is sorted.
pub unpack_items-Ascending : (items : List String) → Ascending 0 (unpack_items items)
unfolding unpack_items Ascending
unpack_items-Ascending items = elim (Option-cases (scan_items start_scan items)) [
  | inl e ↦ rw (unpack_items, e) tt
  | inr (s, e) ↦ elim (Option-cases (expand_values (found_values s))) [
    | inl f ↦ rw (unpack_items, e, f) tt
    | inr (cpus, f) ↦
        rw (unpack_items, e, f)
          (remove_negated-Ascending s.negated (sorted_set cpus) (sorted_set-Ascending cpus))
  ]
]

packed_items :
    (items packed : List String)
    → some (pack_cpus (unpack_items items)) ≡ some packed
    → some (unpack_items packed) ≡ some (unpack_items items)
packed_items items packed h = ap some (
    ap unpack_items (sym (some-injective _ _ h))
    ∙ unpack_items-pack_cpus (unpack_items items) (unpack_items-Ascending items))

-- The packed form of CPUs in any form is unpacked to the CPUs that the given form is unpacked to.
pub cpulist_unpack-cpulist_pack :
    (spec : CpuSpec) (packed : List String)
    → cpulist_pack spec ≡ some packed
    → cpulist_unpack (cpu_items packed) ≡ cpulist_unpack spec
unfolding cpulist_pack cpulist_unpack
cpulist_unpack-cpulist_pack no_cpus packed h = absurd (ground (arith, h))
cpulist_unpack-cpulist_pack (cpu_text s) packed h =
    packed_items (split b',' (strip_quotes_right (strip_quotes_left s))) packed h
cpulist_unpack-cpulist_pack (cpu_items items) packed h = packed_items items packed h
