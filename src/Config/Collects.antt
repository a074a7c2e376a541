-- ===== src/Config/Collects.antt =====
-- What Err reports: all of the problems, and nothing of the values.
use cofound.Prelude.{
  ◌≡◌, refl, ap, sym, ◌∙◌, inl, inr, String, Option, none, some, List, [], ◌∷◌, ◌++◌, In, In-append,
}
use mathlib.Core.List.{append_assoc, append-nil}
use cofound.Config.Loader.{Host, Problem, Loader, new_loader, mark_secret}
use cofound.Config.Reads.{Read, marks, apply, load}
use cofound.Config.Shape.{IsExpected, add_problem}
use cofound.Config.Wanted.{wanted, wanted_get, key_of, IsReader, Read-cases, apply-Shaped}

-- The problems of one read alone, on a new loader.
unfoldable pub own_problems : Host → Read → List Problem
own_problems h r = (apply h r new_loader).problems

-- Those of every read alone, one after another.
unfoldable pub all_problems : Host → List Read → List Problem
all_problems h [] = []
all_problems h (r ∷ rs) = own_problems h r ++ all_problems h rs

add_problem-append :
    (o : Option Problem) (ps : List Problem) → add_problem o ps ≡ ps ++ add_problem o []
add_problem-append none ps = sym (append-nil ps)
add_problem-append (some p) ps = refl

mark_problems : (h : Host) (k : String) (l : Loader) → (apply h (marks k) l).problems ≡ l.problems
unfolding apply mark_secret
mark_problems h k l = refl

new_problems : new_loader.problems ≡ []
unfolding new_loader
new_problems = refl

read_problems :
    (h : Host) (r : Read)
    → IsReader r
    → (o : Option Problem) × ((l : Loader) → (apply h r l).problems ≡ add_problem o l.problems)
      × IsExpected (key_of r) (wanted h r) o
read_problems h r i =
    let (v, o, f, x) = apply-Shaped h r i in (o, (λ l. ap (λ m. m.problems) (f l)), x)

apply-problems :
    (h : Host) (r : Read) (l : Loader) → (apply h r l).problems ≡ l.problems ++ own_problems h r
unfolding own_problems
apply-problems h r l = elim (Read-cases r) [
  | inl (k, e) ↦
      rw (e, mark_problems h k l, mark_problems h k new_loader, new_problems)
        (sym (append-nil l.problems))
  | inr i ↦
      let (o, f, x) = read_problems h r i in
      rw (f l, f new_loader, new_problems) (add_problem-append o l.problems)
]

load_from :
    (h : Host) (rs : List Read) (l : Loader)
    → (load h rs l).problems ≡ l.problems ++ all_problems h rs
unfolding load all_problems
load_from h [] l = sym (append-nil l.problems)
load_from h (r ∷ rs) l =
    load_from h rs (apply h r l)
    ∙ (ap (λ ps. ps ++ all_problems h rs) (apply-problems h r l)
        ∙ append_assoc l.problems (own_problems h r) (all_problems h rs))

-- One pass over the variables reports just what reading each of them alone would, in order: no problem
-- hides another, and none is made up.
pub load-all_problems :
    (h : Host) (rs : List Read) → (load h rs new_loader).problems ≡ all_problems h rs
load-all_problems h rs = load_from h rs new_loader ∙ ap (λ ps. ps ++ all_problems h rs) new_problems

nothing_own :
    (h : Host) (k : String) (p : Problem) → In p (apply h (marks k) new_loader).problems → ⊥
unfolding apply mark_secret new_loader
nothing_own h k p i = i

one_expected :
    (k : String) (w : List String) (o : Option Problem) (p : Problem)
    → IsExpected k w o
    → In p (add_problem o [])
    → (p.key ≡ k) × In p.expect w
one_expected k w none p x i = elim i [ ]
one_expected k w (some q) p (e, i) (inl s) = rw s (e, i)
one_expected k w (some q) p x (inr i) = elim i [ ]

own_expected :
    (h : Host) (r : Read) (p : Problem)
    → In p (own_problems h r)
    → (p.key ≡ key_of r) × In p.expect (wanted h r)
unfolding own_problems
own_expected h r p i = elim (Read-cases r) [
  | inl (k, e) ↦ elim (nothing_own h k p (rw e at i)) [ ]
  | inr j ↦
      let (o, f, x) = read_problems h r j in
      one_expected (key_of r) (wanted h r) o p x (rw (f new_loader, new_problems) at i)
]

all_expected :
    (h : Host) (rs : List Read) (p : Problem)
    → In p (all_problems h rs)
    → (r : Read) × In r rs × (p.key ≡ key_of r) × In p.expect (wanted h r)
unfolding all_problems
all_expected h [] p i = elim i [ ]
all_expected h (r ∷ rs) p i = elim (In-append p (own_problems h r) (all_problems h rs) i) [
  | inl here ↦ let (e, w) = own_expected h r p here in (r, inl refl, e, w)
  | inr there ↦ let (q, j, e, w) = all_expected h rs p there in (q, inr j, e, w)
]

-- Whatever the environment holds, a problem has the key of a read and one of the texts that the read
-- asks for, which are the same for every environment: no value is echoed.
pub load-wanted :
    (h : Host) (get : String → Option String) (rs : List Read) (p : Problem)
    → In p (load (record h { get = get }) rs new_loader).problems
    → (r : Read) × In r rs × (p.key ≡ key_of r) × In p.expect (wanted h r)
load-wanted h get rs p i =
    let (r, j, e, w) =
      all_expected (record h { get = get }) rs p
        (rw (load-all_problems (record h { get = get }) rs) at i) in
    (r, j, e, rw (wanted_get h get r) at w)
