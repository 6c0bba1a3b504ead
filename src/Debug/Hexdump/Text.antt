-- ===== src/Debug/Hexdump/Text.antt =====
-- What hexdump writes.
use libckit.Common.{
  ℕ, zero, suc, ◌+◌, ◌-◌, ◌^◌, ◌≤◌, ◌<◌, ◌≡◌, refl, sym, ap, ◌∙◌, List, [], ◌∷◌, ◌++◌, true, false,
  arith, ltb, ◌==◌, take, length, length-append,
}
use libckit.Common.Word.{sub64}
use libckit.Common.Run.{Run, ok, ◌>>=◌}
use libckit.Debug.Hexdump.{pair_text, overwrite, write_at, snprintf, dump_pair, dump_from}

-- the text for the bytes, an odd one at the end with a 0 behind it
abbrev pub text_of : List ℕ → List ℕ
text_of [] = []
text_of (h ∷ []) = pair_text h 0
text_of (h ∷ c ∷ rest) = pair_text h c ++ text_of rest

abbrev pub drop : ℕ → List ℕ → List ℕ
drop zero xs = xs
drop (suc n) [] = []
drop (suc n) (x ∷ xs) = drop n xs

-- a buffer that begins with a text and its NUL
abbrev pub over : List ℕ → List ℕ → List ℕ
over text buf = text ++ 0 ∷ drop (suc (length text)) buf

write_at-append :
    (pre src suffix : List ℕ) (result : List ℕ)
    → overwrite src suffix ≡ ok result
    → write_at (length pre) src (pre ++ suffix) ≡ ok (pre ++ result)
unfolding write_at
write_at-append [] src suffix result e = e
write_at-append (x ∷ pre) src suffix result e = rw (write_at-append pre src suffix result e) refl

overwrite-pair :
    (h c : ℕ) (suffix : List ℕ)
    → 6 ≤ length suffix
    → overwrite (pair_text h c ++ 0 ∷ []) suffix ≡ ok (over (pair_text h c) suffix)
unfolding overwrite
overwrite-pair h c (a ∷ b ∷ d ∷ e ∷ f ∷ g ∷ rest) room = refl
overwrite-pair h c [] room = absurd (omega (arith, room))
overwrite-pair h c (a ∷ []) room = absurd (omega (arith, room))
overwrite-pair h c (a ∷ b ∷ []) room = absurd (omega (arith, room))
overwrite-pair h c (a ∷ b ∷ d ∷ []) room = absurd (omega (arith, room))
overwrite-pair h c (a ∷ b ∷ d ∷ e ∷ []) room = absurd (omega (arith, room))
overwrite-pair h c (a ∷ b ∷ d ∷ e ∷ f ∷ []) room = absurd (omega (arith, room))

take_all : (n : ℕ) (xs : List ℕ) → length xs ≤ n → take n xs ≡ xs
take_all zero [] fits = refl
take_all (suc n) [] fits = refl
take_all zero (x ∷ xs) fits = absurd (omega arith)
take_all (suc n) (x ∷ xs) fits = rw (take_all n xs (omega arith)) refl

snprintf-whole :
    (offset room : ℕ) (text buf : List ℕ)
    → length text < room
    → snprintf offset room text buf ≡ write_at offset (text ++ 0 ∷ []) buf
unfolding snprintf
snprintf-whole offset room text buf fits =
    let some_room : (room == 0) ≡ false = ground arith in
    rw (some_room, take_all (room - 1) text (omega arith)) refl

dump_pair_lem :
    (h c buflen : ℕ) (pre suffix : List ℕ)
    → buflen < 2 ^ 31
    → length pre + length suffix ≡ buflen
    → 6 ≤ length suffix
    → dump_pair h c (length pre) buflen (pre ++ suffix) ≡ ok (pre ++ over (pair_text h c) suffix)
unfolding dump_pair
dump_pair_lem h c buflen pre suffix small size room =
    let fits : 5 < sub64 buflen (length pre) = omega arith in
    let within : ltb (length pre + 5) (2 ^ 31) ≡ true = ground arith in
    rw
      (
        snprintf-whole (length pre) (sub64 buflen (length pre)) (pair_text h c) (pre ++ suffix)
            fits,
        write_at-append pre (pair_text h c ++ 0 ∷ []) suffix _ (overwrite-pair h c suffix room),
        within,
      )
      refl

-- `k + n`, step by step on `k`
abbrev plus : ℕ → ℕ → ℕ
plus zero n = n
plus (suc k) n = suc (plus k n)

drop_nil : (n : ℕ) → drop n [] ≡ []
drop_nil zero = refl
drop_nil (suc n) = refl

drop-plus : (k n : ℕ) (s : List ℕ) → drop (plus k n) s ≡ drop n (drop k s)
drop-plus zero n s = refl
drop-plus (suc k) n [] = sym (drop_nil n)
drop-plus (suc k) n (x ∷ s) = drop-plus k n s

length-drop : (k : ℕ) (s : List ℕ) → length (drop k s) ≡ length s - k
length-drop zero s = omega arith
length-drop (suc k) [] = omega arith
length-drop (suc k) (x ∷ s) = omega (arith, length-drop k s)

append_assoc : (xs ys zs : List ℕ) → xs ++ (ys ++ zs) ≡ (xs ++ ys) ++ zs
append_assoc [] ys zs = refl
append_assoc (x ∷ xs) ys zs = rw (append_assoc xs ys zs) refl

-- the buffer after the loop
abbrev pub dumped : List ℕ → List ℕ → List ℕ
dumped [] buf = buf
dumped (x ∷ rest) buf = over (text_of (x ∷ rest)) buf

dumped_step :
    (h c : ℕ) (rest suffix : List ℕ)
    → pair_text h c ++ dumped rest (0 ∷ drop 6 suffix) ≡ dumped (h ∷ c ∷ rest) suffix
dumped_step h c [] suffix = refl
dumped_step h c (x ∷ rest) suffix =
    let t = text_of (x ∷ rest) in
    ap (λ (d : List ℕ). pair_text h c ++ (t ++ 0 ∷ d)) (sym (drop-plus 6 (length t) suffix))

pub dump_from_lem :
    (bytes : List ℕ) (buflen : ℕ) (pre suffix : List ℕ)
    → buflen < 2 ^ 31
    → length pre + length suffix ≡ buflen
    → length (text_of bytes) < length suffix
    → dump_from bytes (length pre) buflen (pre ++ suffix) ≡ ok (pre ++ dumped bytes suffix)
unfolding dump_from
dump_from_lem [] buflen pre suffix small size room = refl
dump_from_lem (h ∷ []) buflen pre suffix small size room =
    dump_pair_lem h 0 buflen pre suffix small size (omega arith)
dump_from_lem (h ∷ c ∷ rest) buflen pre suffix small size room =
    let first = dump_pair_lem h c buflen pre suffix small size (omega arith) in
    let pre' = pre ++ pair_text h c in
    let left = length-drop 6 suffix in
    let so_far : length pre' ≡ length pre + 5 = length-append pre (pair_text h c) in
    let same = append_assoc pre (pair_text h c) (0 ∷ drop 6 suffix) in
    let more =
      dump_from_lem rest buflen pre' (0 ∷ drop 6 suffix) small (omega arith) (omega arith) in
    ap (λ (r : Run (List ℕ)). r >>= dump_from rest (length pre + 5) buflen) first
    ∙ ap (λ (b : List ℕ). dump_from rest (length pre + 5) buflen b) same
    ∙ ap (λ (n : ℕ). dump_from rest n buflen (pre' ++ 0 ∷ drop 6 suffix)) (sym so_far)
    ∙ more
    ∙ ap ok (sym (append_assoc pre (pair_text h c) (dumped rest (0 ∷ drop 6 suffix))))
    ∙ ap (λ (d : List ℕ). ok (pre ++ d)) (dumped_step h c rest suffix)
