-- ===== src/Shell/Parse.antt =====
-- What `g_argv` holds of the words of a command line.
use learn_in_linux.Common.{
  ℕ, zero, suc, ◌+◌, ◌≤◌, ◌<◌, ◌≡◌, refl, sym, ap, ◌∙◌, inl, inr, Option, none, some, List, [], ◌∷◌,
  ◌++◌, map, append-nil, append_assoc, Bytes, length, length-append, Bool-cases, if◌then◌else◌,
  Result, ok, fault, Fault, ◌>>=◌, arith,
}
use mathlib.Core.Path.{subst}
use learn_in_linux.Text.{codes, same_bytes}
use learn_in_linux.Shell.{size, strtok, Argv, put, fill, parse, args}
use learn_in_linux.Shell.Words.{words, strtok-words}

-- A write behind the first `i` places of the array.
put-behind :
    (pre post : Argv) (v x : Option Bytes)
    → put (length pre) v (pre ++ x ∷ post) ≡ ok (pre ++ v ∷ post)
unfolding put
put-behind [] post v x = refl
put-behind (y ∷ pre) post v x = rw (put-behind pre post v x) refl

put_past : (pre : Argv) (v : Option Bytes) → put (length pre) v pre ≡ fault Fault.out_of_bounds
unfolding put
put_past [] v = refl
put_past (y ∷ pre) v = rw (put_past pre v) refl

-- The array after the words were put behind `pre`: they, and then NULL.
abbrev texts : List Bytes → Argv
texts ws = map some ws

-- What the loop does, by the words that are left and the places that are left.
abbrev Filled : Result Argv → Argv → Argv → List Bytes → Type 0
Filled m pre post ws =
    (length ws < length post
      → (tail : Argv) × (m ≡ ok (pre ++ (texts ws ++ none ∷ tail)))
        × (length ws + suc (length tail) ≡ length post))
    × (length post ≤ length ws → m ≡ fault Fault.out_of_bounds)

Filled-end : (pre post : Argv) → Filled (put (length pre) none (pre ++ post)) pre post []
Filled-end pre [] = (
  (λ h. absurd (omega (arith, h))),
  λ h.
      subst (λ g. put (length pre) none g ≡ fault Fault.out_of_bounds) (sym (append-nil pre))
        (put_past pre none),
)
Filled-end pre (x ∷ post) =
    ((λ h. (post, put-behind pre post none x, omega arith)), λ h. absurd (omega (arith, h)))

module _ (next : Argv → ℕ → Result Argv) where
  Filled-word :
      (pre post : Argv) (w : Bytes) (ws : List Bytes)
      → ((post' : Argv)
          → Filled
              (next ((pre ++ some w ∷ []) ++ post') (length (pre ++ some w ∷ [])))
              (pre ++ some w ∷ [])
              post'
              ws)
      → Filled
          (put (length pre) (some w) (pre ++ post) >>= λ g. next g (suc (length pre)))
          pre
          post
          (w ∷ ws)
  Filled-word pre [] w ws others = (
    (λ h. absurd (omega (arith, h))),
    λ h.
        ap (λ m. m >>= λ g. next g (suc (length pre)))
          (subst (λ g. put (length pre) (some w) g ≡ fault Fault.out_of_bounds)
            (sym (append-nil pre)) (put_past pre (some w))),
  )
  Filled-word pre (x ∷ post) w ws others =
      let place : length (pre ++ some w ∷ []) ≡ suc (length pre) =
        omega (arith, length-append pre (some w ∷ [])) in
      let same : next ((pre ++ some w ∷ []) ++ post) (length (pre ++ some w ∷ []))
          ≡ next (pre ++ some w ∷ post) (suc (length pre)) =
        ap (next ((pre ++ some w ∷ []) ++ post)) place
        ∙ ap (λ g. next g (suc (length pre))) (append_assoc pre (some w ∷ []) post) in
      let (fits, full) = others post in
      let start =
        ap (λ m. m >>= λ g. next g (suc (length pre))) (put-behind pre post (some w) x)
        ∙ sym same in
      (
        (λ room.
            let (tail, e, long) = fits (omega (arith, room)) in
            (
              tail,
              start ∙ e ∙ ap ok (append_assoc pre (some w ∷ []) (texts ws ++ none ∷ tail)),
              omega (arith, long),
            )),
        λ room. start ∙ full (omega (arith, room)),
      )

fill-words :
    (fuel : ℕ) (pre post : Argv) (s : Bytes)
    → length s < fuel
    → Filled (fill fuel (pre ++ post) (length pre) s) pre post (words s)
unfolding fill
fill-words zero pre post s enough = absurd (omega arith)
fill-words (suc fuel) pre post s enough = elim (strtok-words s) [
  | inl (e, none_left) ↦ rw (fill, e, none_left) (Filled-end pre post)
  | inr (w, rest, e, ws, shorter) ↦
      rw (fill, e, ws)
        (Filled-word (λ g index. fill fuel g index rest) pre post w (words rest)
          (λ post'.
            fill-words fuel (pre ++ some w ∷ []) post' rest (omega (arith, shorter, enough))))
]

-- What the shell makes of the words: options for `ls`, and `ll` as a short form.
unfoldable pub expand : List Bytes → List Bytes
expand [] = []
expand (w ∷ ws) =
    if same_bytes w (codes "ls")
    then w ∷ (codes "--color=auto" ∷ ws)
    else if same_bytes w (codes "ll")
    then codes "ls" ∷ (codes "-l" ∷ (codes "--color=auto" ∷ ws))
    else w ∷ ws

args-texts :
    (pws ws : List Bytes) (tail : Argv) → args (texts pws ++ (texts ws ++ none ∷ tail)) ≡ pws ++ ws
unfolding args
args-texts [] [] tail = refl
args-texts [] (w ∷ ws) tail = rw (args-texts [] ws tail) refl
args-texts (p ∷ pws) ws tail = rw (args-texts pws ws tail) refl

-- The array holds the words with NULL behind them, and has no place for more.
abbrev pub Parsed : Result Argv → List Bytes → Type 0
Parsed m ws =
    (length ws < size → (g : Argv) × (m ≡ ok g) × (args g ≡ ws) × (length g ≡ size))
    × (size ≤ length ws → m ≡ fault Fault.out_of_bounds)

length-texts : (ws : List Bytes) → length (texts ws) ≡ length ws
length-texts [] = refl
length-texts (w ∷ ws) = ap suc (length-texts ws)

Filled-Parsed :
    (m : Result Argv) (pws : List Bytes) (post : Argv) (ws : List Bytes)
    → Filled m (texts pws) post ws
    → length pws + length post ≡ size
    → Parsed m (pws ++ ws)
Filled-Parsed m pws post ws (fits, full) room =
    let all = length-append pws ws in
    (
      (λ h.
          let (tail, e, long) = fits (omega (arith, h, all, room)) in
          let behind = length-append (texts ws) (none ∷ tail) in
          let whole = length-append (texts pws) (texts ws ++ none ∷ tail) in
          (
            _,
            e,
            args-texts pws ws tail,
            omega (arith, behind, whole, length-texts ws, length-texts pws, long, room),
          )),
      λ h. full (omega (arith, h, all, room)),
    )

fill-Parsed :
    (pws : List Bytes) (post : Argv) (s : Bytes)
    → length pws + length post ≡ size
    → Parsed (fill (suc (length s)) (texts pws ++ post) (length pws) s) (pws ++ words s)
fill-Parsed pws post s room =
    Filled-Parsed _ pws post (words s)
      (rw (length-texts pws) at (fill-words (suc (length s)) (texts pws) post s (omega arith))) room

-- The fate of a line without any word, or with words.
abbrev pub Outcome : Result Argv → List Bytes → Type 0
Outcome m [] = m ≡ fault Fault.null_pointer
Outcome m (w ∷ ws) = Parsed m (expand (w ∷ ws))

places : (n : ℕ) (g : Argv) → n < length g → (x : Option Bytes) × (post : Argv) × (g ≡ x ∷ post)
places n [] h = absurd (omega (arith, h))
places n (x ∷ post) h = (x, post, refl)

parse-first :
    (w rest : Bytes) (x y z : Option Bytes) (post : Argv)
    → length post ≡ 29
    → (s : Bytes) → strtok s ≡ some (w, rest)
    → Parsed (parse (x ∷ (y ∷ (z ∷ post))) s) (expand (w ∷ words rest))
unfolding parse expand put
parse-first w rest x y z post long s e = elim (Bool-cases (same_bytes w (codes "ls"))) [
  | inl ls ↦
      rw (parse, e, ls)
        (fill-Parsed (w ∷ (codes "--color=auto" ∷ [])) (z ∷ post) rest (omega (arith, long)))
  | inr not_ls ↦ elim (Bool-cases (same_bytes w (codes "ll"))) [
    | inl ll ↦
        rw (parse, e, not_ls, ll)
          (fill-Parsed (codes "ls" ∷ (codes "-l" ∷ (codes "--color=auto" ∷ []))) post rest
            (omega (arith, long)))
    | inr not_ll ↦
        rw (parse, e, not_ls, not_ll)
          (fill-Parsed (w ∷ []) (y ∷ (z ∷ post)) rest (omega (arith, long)))
  ]
]

-- A command without a word ends in `strcmp` of a null pointer. Else `g_argv` holds its words, with the options that
-- the shell adds for `ls` and `ll`, and NULL behind them, if these are fewer than SIZE; if they are not,
-- the loop writes behind the array.
pub parse-words : (g : Argv) (s : Bytes) → length g ≡ size → Outcome (parse g s) (words s)
unfolding parse
parse-words g s long = elim (strtok-words s) [
  | inl (e, none_left) ↦ rw none_left (rw (parse, e) refl)
  | inr (w, rest, e, ws, shorter) ↦
      let (x, g1, is_x) = places 0 g (omega (arith, long)) in
      let (y, g2, is_y) = places 0 g1 (omega (arith, long, ap length is_x)) in
      let (z, g3, is_z) = places 0 g2 (omega (arith, long, ap length is_x, ap length is_y)) in
      let whole : g ≡ x ∷ (y ∷ (z ∷ g3)) =
        is_x ∙ ap (λ l. x ∷ l) is_y ∙ ap (λ l. x ∷ (y ∷ l)) is_z in
      rw (ws, whole) (parse-first w rest x y z g3 (omega (arith, long, ap length whole)) s e)
]
