-- ===== src/Lifecycle/Drain/Counted.antt =====
-- The counts of a Drain are those of the requests that are open, and no waiter is forgotten.
use cofound.Prelude.{
  ℕ, zero, suc, ◌+◌, ◌-◌, ◌<◌, ◌≡◌, refl, inl, inr, ◌⊎◌, String, Bool, true, false, not, ◌&&◌, some,
  List, [], ◌∷◌, ◌++◌, arith, eq_iff, ◌==◌, ◌=s◌, count, count-append, lookup, In, Option-cases,
  Bool-cases, if◌then◌else◌,
}
use cofound.Lifecycle.Drain.{
  Handle, Drain, new_drain, get, set, remove, enter, handle_at, mark, leave, do_release, release,
  begin, wait, Call, step, run, enters, releases, begins, waits,
}

-- The open requests of a kind, and all of them.
unfoldable pub is_open_of : String → Handle → Bool
is_open_of k h = not h.released && h.kind =s k

unfoldable pub is_open : Handle → Bool
is_open h = not h.released

get-set :
    (k j : String) (n : ℕ) (m : List (String × ℕ))
    → get j (set k n m) ≡ (if k =s j then n else get j m)
unfolding get set lookup
get-set k j n [] = ground arith
get-set k j n ((i, v) ∷ m) = ground (arith, get-set k j n m, eq_iff i k, eq_iff i j, eq_iff k j)

get-remove :
    (k j : String) (m : List (String × ℕ)) → get j (remove k m) ≡ (if k =s j then 0 else get j m)
unfolding get remove lookup
get-remove k j [] = ground arith
get-remove k j ((i, v) ∷ m) = ground (arith, get-remove k j m, eq_iff i k, eq_iff i j, eq_iff k j)

get-leave :
    (k j : String) (m : List (String × ℕ))
    → get j (leave k m) ≡ (if k =s j then get k m - 1 else get j m)
unfolding leave
get-leave k j m = ground (arith, get-set k j (get k m - 1) m, get-remove k j m)

count-mark :
    (p : Handle → Bool) (i : ℕ) (hs : List Handle) (h : Handle)
    → handle_at i hs ≡ some h
    → ((x : Handle) → p (record x { released = true }) ≡ false)
    → count p (mark i hs) + (if p h then 1 else 0) ≡ count p hs
unfolding count mark handle_at
count-mark p i [] h e f = cc
count-mark p zero (x ∷ xs) h e f = ground (arith, f x)
count-mark p (suc i) (x ∷ xs) h e f = ground (arith, count-mark p i xs h e f)

pub record IsCounted (d : Drain) : Type 0 where
  pub kinds : (k : String) → get k d.active ≡ count (is_open_of k) d.handles
  pub all : d.total ≡ count is_open d.handles
  pub idle : d.total ≡ 0 → d.waiters ≡ []
  pub heard : (w : ℕ) → w < d.next_waiter → In w d.waiters ⊎ In w d.woken
  pub broadcast : d.closed ≡ d.begun

In_left : (w : ℕ) (xs ys : List ℕ) → In w xs → In w (xs ++ ys)
In_left w (x ∷ xs) ys (inl e) = inl e
In_left w (x ∷ xs) ys (inr i) = inr (In_left w xs ys i)
In_left w [] ys i = absurd i

In_right : (w : ℕ) (xs ys : List ℕ) → In w ys → In w (xs ++ ys)
In_right w [] ys i = i
In_right w (x ∷ xs) ys i = inr (In_right w xs ys i)

new_drain-IsCounted : IsCounted new_drain
unfolding new_drain count get lookup
new_drain-IsCounted = record {
  kinds = λ k. refl;
  all = refl;
  idle = λ e. refl;
  heard = λ w h. absurd (ground (arith, h));
  broadcast = refl;
}

one_new :
    (kind k : String)
    → count (is_open_of k) (record { kind = kind; released = false } ∷ [])
      ≡ (if kind =s k then 1 else 0)
unfolding count is_open_of
one_new kind k = ground arith

one_open : (kind : String) → count is_open (record { kind = kind; released = false } ∷ []) ≡ 1
unfolding count is_open
one_open kind = refl

if-IsCounted :
    {A : Type 0} (b : Bool) (x y : Drain × A)
    → (b ≡ true → IsCounted x.0)
    → (b ≡ false → IsCounted y.0)
    → IsCounted (if b then x else y).0
if-IsCounted true x y h k = h refl
if-IsCounted false x y h k = k refl

module _ (d : Drain) (inv : IsCounted d) where
  enter-IsCounted : (kind : String) → IsCounted (enter kind d).0
  unfolding enter
  enter-IsCounted kind =
      if-IsCounted d.begun _ _ (λ _. inv)
        (λ _. record {
          kinds = λ k. ground (
            arith,
            inv.kinds k,
            inv.kinds kind,
            get-set kind k (get kind d.active + 1) d.active,
            count-append (is_open_of k) d.handles (record { kind = kind; released = false } ∷ []),
            one_new kind k,
            eq_iff kind k,
          );
          all = ground (
            arith,
            inv.all,
            count-append is_open d.handles (record { kind = kind; released = false } ∷ []),
            one_open kind,
          );
          idle = λ e. absurd (ground (arith, e));
          heard = inv.heard;
          broadcast = inv.broadcast;
        })

  begin-IsCounted : IsCounted (begin d)
  unfolding begin
  begin-IsCounted = record {
    kinds = inv.kinds;
    all = inv.all;
    idle = inv.idle;
    heard = inv.heard;
    broadcast = refl;
  }

  wait-IsCounted : IsCounted (wait d).0
  unfolding wait
  wait-IsCounted = elim (Bool-cases (d.total == 0)) [
    | inl b ↦ rw b inv
    | inr b ↦ rw b (record {
      kinds = inv.kinds;
      all = inv.all;
      idle = λ e. absurd (ground (arith, e, b));
      heard = λ w l. ground (
        arith,
        inv.heard w,
        In_left w d.waiters (d.next_waiter ∷ []),
        In_right w d.waiters (d.next_waiter ∷ []),
      );
      broadcast = inv.broadcast;
    })
  ]

  one_kind :
      (i : ℕ) (h : Handle) (k : String)
      → handle_at i d.handles ≡ some h
      → h.released ≡ false
      → count (is_open_of k) (mark i d.handles) + (if h.kind =s k then 1 else 0)
        ≡ count (is_open_of k) d.handles
  unfolding is_open_of
  one_kind i h k e o = ground (arith, count-mark (is_open_of k) i d.handles h e (λ x. refl))

  one_all :
      (i : ℕ) (h : Handle)
      → handle_at i d.handles ≡ some h
      → h.released ≡ false
      → count is_open (mark i d.handles) + 1 ≡ count is_open d.handles
  unfolding is_open
  one_all i h e o = ground (arith, count-mark is_open i d.handles h e (λ x. refl))

  do_release-IsCounted :
      (i : ℕ) (h : Handle)
      → handle_at i d.handles ≡ some h
      → h.released ≡ false
      → IsCounted (do_release i h.kind d)
  unfolding do_release
  do_release-IsCounted i h e open_now = record {
    kinds = λ k. ground (
      arith,
      inv.kinds k,
      inv.kinds h.kind,
      get-leave h.kind k d.active,
      one_kind i h k e open_now,
      eq_iff h.kind k,
    );
    all = ground (arith, inv.all, one_all i h e open_now);
    idle = ground (arith, inv.all, inv.idle, one_all i h e open_now);
    heard = λ w l.
        ground (arith, inv.heard w l, In_left w d.woken d.waiters, In_right w d.woken d.waiters);
    broadcast = inv.broadcast;
  }

  release-IsCounted : (i : ℕ) → IsCounted (release i d)
  unfolding release
  release-IsCounted i = elim (Option-cases (handle_at i d.handles)) [
    | inl n ↦ rw (n, release) inv
    | inr (h, e) ↦ elim (Bool-cases h.released) [
      | inl r ↦ rw (e, release, r) inv
      | inr r ↦ rw (e, release, r) (do_release-IsCounted i h e r)
    ]
  ]

step-IsCounted : (c : Call) (d : Drain) → IsCounted d → IsCounted (step c d)
unfolding step
step-IsCounted (enters kind) d inv = enter-IsCounted d inv kind
step-IsCounted (releases i) d inv = release-IsCounted d inv i
step-IsCounted begins d inv = begin-IsCounted d inv
step-IsCounted waits d inv = wait-IsCounted d inv

pub run-IsCounted_from : (cs : List Call) (d : Drain) → IsCounted d → IsCounted (run cs d)
unfolding run
run-IsCounted_from [] d inv = inv
run-IsCounted_from (c ∷ cs) d inv = run-IsCounted_from cs (step c d) (step-IsCounted c d inv)

-- However Enter, release, Begin and Wait interleave from a new Drain, releases of one handle twice
-- included: the count of a kind is that of its open requests, the total is that of all, every
-- caller of Wait still waits or has been woken, none waits at a total of zero, and the channel is
-- closed exactly when draining has begun.
pub run-IsCounted : (cs : List Call) → IsCounted (run cs new_drain)
run-IsCounted cs = run-IsCounted_from cs new_drain new_drain-IsCounted
