-- ===== src/Tests/Utils.antt =====
-- Lists of CPUs in the forms that the configuration allows, and profile files.
use tuned.Base.{nat_eq, ◌≡◌, refl, true, false, some, [], ◌∷◌}
use tuned.Utils.Masks.{bitmask2cpulist, cpulist2bitmask, sorted_set}
use tuned.Utils.Masks.RoundTrip.{bitmask2cpulist-cpulist2bitmask}
use tuned.Utils.Cpulist.{
  CpuSpec, cpu_text, cpu_items, cpulist_unpack, cpulist_pack, cpulist2string, cpulist_invert,
  hex2cpulist,
}
use tuned.Utils.Cpulist.Packing.{cpulist_unpack-cpulist_pack}
use tuned.Utils.Cpulist.Hex.{cpulist2hex, hex2cpulist-cpulist2hex}
use tuned.Utils.Files.{
  ProfileFiles, content, absent, get_active_profile, get_post_loaded_profile, save_active_profile,
  save_post_loaded_profile,
}
use tuned.Utils.Files.RoundTrip.{stripped, get_active_profile-save_active_profile}

-- A range, a mask with a comma in it, a single CPU and a negation.
mixed : cpulist_unpack (cpu_text "0-3,0x1,00,,6,^2") ≡ some (0 ∷ 1 ∷ 3 ∷ 6 ∷ 8 ∷ [])
unfolding cpulist_unpack
mixed = refl

-- A range with nothing in it, and a value that is no number.
degenerate :
    (cpulist_unpack (cpu_text "5-3") ≡ some []) × (cpulist_unpack (cpu_text "1,two") ≡ some [])
unfolding cpulist_unpack
degenerate = (refl, refl)

-- With a space behind the comma a negation or a mask is no number, and there are no CPUs.
spaced :
    (cpulist_unpack (cpu_text "0-5, ^3") ≡ some [])
    × (cpulist_unpack (cpu_text "0-3, 0xf,, 6") ≡ some [])
    × (cpulist_unpack (cpu_text "0-5,^3") ≡ some (0 ∷ 1 ∷ 2 ∷ 4 ∷ 5 ∷ []))
unfolding cpulist_unpack
spaced = (refl, refl, refl)

-- A negation may be a range.
negated_range : cpulist_unpack (cpu_text "0-5,^2-4") ≡ some (0 ∷ 1 ∷ 5 ∷ [])
unfolding cpulist_unpack
negated_range = refl

inverted : cpulist_invert "0-3" (cpu_text "'1,2'") ≡ some (0 ∷ 3 ∷ [])
unfolding cpulist_invert nat_eq
inverted = refl

listed : cpulist2string "cpu" (0 ∷ 12 ∷ []) ≡ "cpu0,cpu12"
unfolding cpulist2string
listed = refl

bitmask2cpulist-cpulist2bitmask_example :
    (bitmask2cpulist (cpulist2bitmask (4 ∷ 0 ∷ 4 ∷ [])) ≡ sorted_set (4 ∷ 0 ∷ 4 ∷ []))
    × (cpulist2bitmask (bitmask2cpulist 19) ≡ 19)
bitmask2cpulist-cpulist2bitmask_example = bitmask2cpulist-cpulist2bitmask (4 ∷ 0 ∷ 4 ∷ []) 19

abbrev scattered : CpuSpec
scattered = cpu_text "9,1-2,3,^2,10"

scattered_packed : cpulist_pack scattered ≡ some ("1" ∷ "3" ∷ "9-10" ∷ [])
unfolding cpulist_pack
scattered_packed = refl

cpulist_unpack-cpulist_pack_example :
    cpulist_unpack (cpu_items ("1" ∷ "3" ∷ "9-10" ∷ [])) ≡ cpulist_unpack scattered
cpulist_unpack-cpulist_pack_example =
    cpulist_unpack-cpulist_pack scattered ("1" ∷ "3" ∷ "9-10" ∷ []) scattered_packed

scattered_mask : cpulist2hex scattered ≡ some "0000060a"
unfolding cpulist2hex
scattered_mask = refl

hex2cpulist-cpulist2hex_example : cpulist_unpack scattered ≡ some (hex2cpulist "0000060a")
hex2cpulist-cpulist2hex_example = hex2cpulist-cpulist2hex scattered "0000060a" scattered_mask

abbrev saved : ProfileFiles
saved = record { active = content "old\n"; mode = absent; post_loaded = absent }

get_active_profile-save_active_profile_example :
    let q = (save_active_profile true true (some "balanced") false saved).1 in
    let r = (save_post_loaded_profile true (some "balanced") saved).1 in
    (get_active_profile q ≡ some (stripped (some "balanced"), some false))
    × (get_post_loaded_profile q ≡ get_post_loaded_profile saved)
    × (get_post_loaded_profile r ≡ some (stripped (some "balanced")))
    × (get_active_profile r ≡ get_active_profile saved)
get_active_profile-save_active_profile_example =
    get_active_profile-save_active_profile (some "balanced") false saved
