-- ===== src/System/Stat.antt =====
-- What `parse_proc_stat` makes of a line of /proc.
use mathlib.Core.Option
use zyris_docker.Prelude.{
  ℕ, ◌+◌, ◌*◌, ◌/◌, ◌%◌, ◌^◌, ◌≡◌, refl, ap, sym, append_assoc, All-append, Bool, true, false, none,
  some, List, [], ◌∷◌, ◌++◌, ◌==◌, All, get_elem?, arith,
}
use zyris_docker.Prelude.Int.{ℤ}
use zyris_docker.Prelude.Text.{Text, codes, is_whitespace, trim, is_empty, join_with}
use zyris_docker.Runtime.Config.{or_else}
use zyris_docker.System.Defs.{
  split_once, rsplit_once, split_on, split_whitespace, number_at, comm_of, parse_proc_stat,
}

-- A text without a character.
abbrev pub Lacks : ℕ → Text → Type 0
Lacks c t = All (λ d. (d == c) ≡ false) t

split_once-first : (c : ℕ) (x y : Text) → Lacks c x → split_once c (x ++ c ∷ y) ≡ some (x, y)
unfolding split_once
split_once-first c [] y h = ground arith
split_once-first c (d ∷ x) y (hd, h) = rw (hd, split_once-first c x y h) refl

rsplit_once-absent : (c : ℕ) (x : Text) → Lacks c x → rsplit_once c x ≡ none
unfolding rsplit_once
rsplit_once-absent c [] h = refl
rsplit_once-absent c (d ∷ x) (hd, h) = rw (rsplit_once-absent c x h, hd) refl

rsplit_once-last : (c : ℕ) (x y : Text) → Lacks c y → rsplit_once c (x ++ c ∷ y) ≡ some (x, y)
unfolding rsplit_once
rsplit_once-last c [] y h = rw (rsplit_once-absent c y h) ground arith
rsplit_once-last c (d ∷ x) y h = rw (rsplit_once-last c x y h) refl

-- A field: not empty, with no whitespace in it.
abbrev pub IsField : Text → Type 0
IsField t = (is_empty t ≡ false) × All (λ c. is_whitespace c ≡ false) t

split_on-clear : (p : ℕ → Bool) (w : Text) → All (λ c. p c ≡ false) w → split_on p w ≡ w ∷ []
unfolding split_on
split_on-clear p [] h = refl
split_on-clear p (c ∷ w) (hc, h) = rw (hc, split_on-clear p w h) refl

split_on-first :
    (p : ℕ → Bool) (w : Text) (c : ℕ) (rest : Text)
    → All (λ d. p d ≡ false) w
    → p c ≡ true
    → split_on p (w ++ c ∷ rest) ≡ w ∷ split_on p rest
unfolding split_on
split_on-first p [] c rest h hc = rw hc refl
split_on-first p (d ∷ w) c rest (hd, h) hc = rw (hd, split_on-first p w c rest h hc) refl

space : is_whitespace b' ' ≡ true
unfolding is_whitespace
space = refl

abbrev pub spaced : List Text → Text
spaced fields = join_with (codes " ") fields

pub split_whitespace-spaced :
    (fields : List Text) → All IsField fields → split_whitespace (spaced fields) ≡ fields
unfolding split_whitespace join_with is_empty
split_whitespace-spaced [] h = unfold split_on in refl
split_whitespace-spaced (f ∷ []) ((hn, hf), h) = rw (split_on-clear is_whitespace f hf, hn) refl
split_whitespace-spaced (f ∷ g ∷ fields) ((hn, hf), h) =
    rw
      (
        append_assoc f (codes " ") (spaced (g ∷ fields)),
        split_on-first is_whitespace f b' ' (spaced (g ∷ fields)) hf space,
        hn,
      )
      (ap (λ rest. f ∷ rest) (split_whitespace-spaced (g ∷ fields) h))

newline : is_whitespace b'\n' ≡ true
unfolding is_whitespace
newline = refl

-- The fields of a line that ends in a newline.
split_whitespace-ended :
    (fields : List Text)
    → All IsField fields
    → split_whitespace (spaced fields ++ codes "\n") ≡ fields
unfolding split_whitespace join_with is_empty
split_whitespace-ended [] h = unfold split_on is_whitespace in refl
split_whitespace-ended (f ∷ []) ((hn, hf), h) =
    rw (split_on-first is_whitespace f b'\n' [] hf newline, hn) unfold split_on in refl
split_whitespace-ended (f ∷ g ∷ fields) ((hn, hf), h) =
    rw
      (
        append_assoc f (codes " ") (spaced (g ∷ fields)),
        append_assoc f (b' ' ∷ spaced (g ∷ fields)) (codes "\n"),
        split_on-first is_whitespace f b' ' (spaced (g ∷ fields) ++ codes "\n") hf space,
        hn,
      )
      (ap (λ rest. f ∷ rest) (split_whitespace-ended (g ∷ fields) h))

split_whitespace-space : (s : Text) → split_whitespace (b' ' ∷ s) ≡ split_whitespace s
unfolding split_whitespace split_on is_empty
split_whitespace-space s = refl

-- Of a line whose name has no parenthesis in it, with fields of no whitespace behind it, the
-- program reads that name without the whitespace around it, the first field as the state, and its
-- numbers at the indices 14 to 17 and 23 of the fields.
pub parse_proc_stat-fields :
    (pid : ℤ) (before name cmdline : Text) (fields : List Text)
    → Lacks b')' before
    → Lacks b')' name
    → Lacks b'(' name
    → All IsField fields
    → parse_proc_stat pid
        (before ++ (b'(' ∷ (name ++ (b')' ∷ (b' ' ∷ (spaced fields ++ codes "\n"))))))
        cmdline
      ≡ some (record {
        pid = pid;
        name = trim name;
        state = or_else (get_elem? fields 0) [];
        rss_bytes = number_at fields 23 * 4096 % 2 ^ 64;
        cpu_secs =
            (number_at fields 14 + number_at fields 15 + number_at fields 16 + number_at fields 17)
            % 2 ^ 64
            / 100;
        cmdline = cmdline;
      })
unfolding parse_proc_stat comm_of
parse_proc_stat-fields pid before name cmdline fields hb hn ho hf =
    let tail = b' ' ∷ (spaced fields ++ codes "\n") in
    let whole : before ++ (b'(' ∷ (name ++ (b')' ∷ tail)))
        ≡ (before ++ (b'(' ∷ name)) ++ (b')' ∷ tail) =
      sym (append_assoc before (b'(' ∷ name) (b')' ∷ tail)) in
    let lacks : Lacks b')' (before ++ (b'(' ∷ name)) =
      All-append (λ d. (d == b')') ≡ false) before (b'(' ∷ name) hb (refl, hn) in
    rw whole rw
      (
        parse_proc_stat,
        split_once-first b')' (before ++ (b'(' ∷ name)) tail lacks,
        comm_of,
        rsplit_once-last b'(' before name ho,
        split_whitespace-space (spaced fields ++ codes "\n"),
        split_whitespace-ended fields hf,
      )
      refl

-- The name ends at the first `)`, whatever stands behind it: of a process whose own name goes on with
-- one, only what stands before it is left.
pub parse_proc_stat-name :
    (pid : ℤ) (before name behind cmdline : Text)
    → Lacks b')' before
    → Lacks b')' name
    → Lacks b'(' name
    → Option.map
        (λ p. p.name)
        (parse_proc_stat pid (before ++ (b'(' ∷ (name ++ (b')' ∷ behind)))) cmdline)
      ≡ some (trim name)
unfolding parse_proc_stat comm_of
parse_proc_stat-name pid before name behind cmdline hb hn ho =
    let whole : before ++ (b'(' ∷ (name ++ (b')' ∷ behind)))
        ≡ (before ++ (b'(' ∷ name)) ++ (b')' ∷ behind) =
      sym (append_assoc before (b'(' ∷ name) (b')' ∷ behind)) in
    let lacks : Lacks b')' (before ++ (b'(' ∷ name)) =
      All-append (λ d. (d == b')') ≡ false) before (b'(' ∷ name) hb (refl, hn) in
    rw whole rw
      (
        parse_proc_stat,
        split_once-first b')' (before ++ (b'(' ∷ name)) behind lacks,
        comm_of,
        rsplit_once-last b'(' before name ho,
      )
      refl
