-- ===== src/Sandbox/Isolate/Meta/RoundTrip.antt =====
-- Reading back what isolate writes into its meta file, for the reader in
-- internal/sandbox/isolate/isolate.go.
use batasd.Common.{
  All-append, ℕ, ◌<◌, ◌^◌, false, [], ◌∷◌, ◌++◌, map, reverse, none, some, All, any, length, ◌==◌,
  ◌≡◌, refl, sym, ◌∙◌, ap, arith,
}
use mathlib.Core.List.{reverse-cons, append-nil, append_assoc}
use batasd.Common.Str.{Str}
use batasd.Common.Strconv.{cut}
use batasd.Sandbox.Process.{bytes}
use batasd.Sandbox.Isolate.Meta.{
  Meta, values, split_lines, drop_cr, is_too_long, add_line, add_lines, scan_meta, read_meta_file,
}

-- A line of the format that isolate documents: a key, a colon, a value and the end of the line.
abbrev pub line_of : Str × Str → Str
line_of (key, value) = key ++ (b':' ∷ value)

abbrev pub print_meta : Meta → Str
print_meta [] = []
print_meta (entry ∷ entries) = line_of entry ++ (b'\n' ∷ print_meta entries)

-- No line end in a text, and no colon in a key.
abbrev pub IsFree : ℕ → Str → Type 0
IsFree c s = All (λ d. (d == c) ≡ false) s

-- A key and a value that fit on one line. A carriage return in the value might be dropped.
pub record IsEntry (entry : Str × Str) : Type 0 where
  pub key_colon : IsFree b':' entry.0
  pub key_line : IsFree b'\n' entry.0
  pub value_line : IsFree b'\n' entry.1
  pub no_return : IsFree b'\r' entry.1
  pub short : length (line_of entry) < 2 ^ 16

split_lines-line :
    (s rest : Str) → IsFree b'\n' s → split_lines (s ++ (b'\n' ∷ rest)) ≡ s ∷ split_lines rest
unfolding split_lines
split_lines-line [] rest f = refl
split_lines-line (c ∷ s) rest (fc, f) = rw (fc, split_lines-line s rest f) refl

cut-line : (key value : Str) → IsFree b':' key → cut b':' (line_of (key, value)) ≡ some (key, value)
unfolding cut
cut-line [] value f = refl
cut-line (c ∷ key) value (fc, f) = rw (fc, cut-line key value f) refl

IsFree-append : (c : ℕ) (s t : Str) → IsFree c s → IsFree c t → IsFree c (s ++ t)
IsFree-append c s t f g = All-append _ s t f g

-- The last byte decides what is dropped.
drop_cr-line :
    (s : Str) (c : ℕ) (value : Str)
    → IsFree b'\r' (c ∷ value)
    → drop_cr (s ++ (c ∷ value)) ≡ s ++ (c ∷ value)
unfolding drop_cr
drop_cr-line [] c [] (fc, f) = rw fc refl
drop_cr-line [] c (d ∷ value) (fc, f) = ap (◌∷◌ c) (drop_cr-line [] d value f)
drop_cr-line (a ∷ []) c value f = ap (◌∷◌ a) (drop_cr-line [] c value f)
drop_cr-line (a ∷ b ∷ s) c value f = ap (◌∷◌ a) (drop_cr-line (b ∷ s) c value f)

add_line-line :
    (m : Meta) (entry : Str × Str)
    → IsEntry entry
    → add_line m (drop_cr (line_of entry)) ≡ entry ∷ m
unfolding add_line
add_line-line m (key, value) e =
    rw (drop_cr-line key b':' value (refl, e.no_return), cut-line key value e.key_colon, add_line)
      refl

split_lines-print_meta : (m : Meta) → All IsEntry m → split_lines (print_meta m) ≡ map line_of m
unfolding split_lines
split_lines-print_meta [] a = refl
split_lines-print_meta ((key, value) ∷ m) (e, a) =
    split_lines-line (line_of (key, value)) (print_meta m)
      (IsFree-append b'\n' key (b':' ∷ value) e.key_line (refl, e.value_line))
    ∙ ap (◌∷◌ (line_of (key, value))) (split_lines-print_meta m a)

add_lines-map :
    (m entries : Meta)
    → All IsEntry entries
    → add_lines m (map line_of entries) ≡ reverse entries ++ m
unfolding add_lines
add_lines-map m [] a = refl
add_lines-map m (entry ∷ entries) (e, a) =
    ap (λ n. add_lines n (map line_of entries)) (add_line-line m entry e)
    ∙ (add_lines-map (entry ∷ m) entries a
        ∙ (sym (append_assoc (reverse entries) (entry ∷ []) m)
            ∙ ap (λ r. r ++ m) (sym (reverse-cons entry entries))))

short_lines : (m : Meta) → All IsEntry m → any is_too_long (map line_of m) ≡ false
short_lines [] a = refl
short_lines ((key, value) ∷ m) (e, a) = rw (short_lines m a) (ground (arith, e.short))

-- The meta file that lists some entries, one on each line, is read as these entries, of which the
-- last one of a key counts: for keys without colons and line ends, and values without line ends and
-- carriage returns, whose lines are shorter than 64 KiB.
pub read_meta_file-print_meta :
    (m : Meta) → All IsEntry m → read_meta_file (bytes (print_meta m) none) ≡ values (reverse m)
unfolding read_meta_file scan_meta
read_meta_file-print_meta m a =
    rw (split_lines-print_meta m a, short_lines m a, add_lines-map [] m a, append-nil) refl
