-- ===== src/Tar/Tests.antt =====
-- An archive with one file of five bytes, at address 4096.
use smpl_osv.Base.{
  zero, suc, ◌+◌, ◌-◌, ◌/◌, ◌%◌, ◌^◌, ◌<◌, ◌≡◌, refl, ◌∙◌, ap, arith, List, [], ◌∷◌, some, ◌==◌,
  if◌then◌else◌, leb, ltb, ◌&&◌,
}
use native.Mathlib.Nat.{pow-suc, one-le-pow, div-eq_of_lt}
use smpl_osv.Libc.{Bytes}
use smpl_osv.Tar.Size.{IsOctal}
use smpl_osv.Tar.Layout.{IsArchive, tar_parse-IsArchive}
use smpl_osv.Tar.{TarFile, tar_parse}

-- The name "a", and the digits "00000000005" of the size.
abbrev memory : Bytes
memory i =
    if i == 4096 then 97 else if leb 4220 i && ltb i 4230 then 48 else if i == 4230 then 53 else 0

five : IsOctal memory 4220 5
five zero l = refl
five (suc j) l =
    let big : 5 < 8 ^ suc j = omega (arith, pow-suc 8 j, one-le-pow j 8) in
    let none_left : 5 / 8 ^ suc j ≡ 0 = div-eq_of_lt big in
    let at : memory (4220 + (10 - suc j)) ≡ 48 = ground arith in
    at ∙ ap (λ q. 48 + q % 8) {x = 0} {y = 5 / 8 ^ suc j} (omega (arith, none_left))

abbrev one_file : List TarFile
one_file = record { filename = 97 ∷ []; start = 4608; size = 5 } ∷ []

one_file-IsArchive : IsArchive memory 4096 one_file
one_file-IsArchive = (
  (refl, omega arith, refl),
  ((λ e. cc), omega arith),
  (omega arith, five),
  (refl, omega arith),
  refl,
)

tar_parse-IsArchive_example : tar_parse 4096 memory ≡ some one_file
tar_parse-IsArchive_example =
    tar_parse-IsArchive 4096 one_file memory (omega arith) one_file-IsArchive
