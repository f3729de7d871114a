-- ===== src/Shell/Strip.antt =====
-- The tab strip that the browser promises: for each tab its id, its history and the current entry,
-- and which tab is active. The rest of the browser, with all that guests and pages do, is left out.
use wasibrowser.Prelude.{
  ℕ, zero, suc, ◌+◌, ◌-◌, ◌^◌, ◌<◌, ◌≤◌, ◌≡◌, ◌≢◌, refl, ap, some, List, [], ◌∷◌, ◌++◌,
  if◌then◌else◌, ltb, length, length-append, length-modify, get_elem?, take, modify, map-modify,
  map-append, All, All-append, All-modify, map, arith, subst, sym,
}
use wasibrowser.Bytes.{Bytes}
use wasibrowser.Shell.Tabs.{remove_at}

-- A tab's id, its history, and the number of the current entry.
abbrev pub Page : Type 0
Page = ℕ × List Bytes × ℕ

abbrev pub page_id : Page → ℕ
page_id p = p.0

pub record Strip : Type 0 where
  pub pages : List Page
  pub active : ℕ
  pub next : ℕ

-- The entries behind the current one are forgotten, and the target becomes the last one.
abbrev pub push_page : Bytes → Page → Page
push_page target (id, history, i) =
    let history' = take (i + 1) history ++ (target ∷ []) in (id, history', length history' - 1)

abbrev pub at_entry : ℕ → Page → Page
at_entry j (id, history, i) = (id, history, j)

-- What can happen to a strip.
pub data Step : Strip → Strip → Type 0 where
  pushes :
      (s : Strip) (idx : ℕ) (target : Bytes)
      → Step s (record s { pages = modify (push_page target) idx s.pages })
  visits :
      (s : Strip) (idx j : ℕ) (p : Page)
      → get_elem? s.pages idx ≡ some p
      → j < length p.1
      → Step s (record s { pages = modify (at_entry j) idx s.pages })
  opens :
      (s : Strip)
      → s.next + 1 < 2 ^ 32
      → Step s (record s { pages = s.pages ++ ((s.next, [], 0) ∷ []); next = s.next + 1 })
  activates : (s : Strip) (idx : ℕ) → idx < length s.pages → Step s (record s { active = idx })
  closes_active :
      (s : Strip)
      → 1 < length s.pages
      → Step s (record s { pages = remove_at s.active s.pages; active = s.active - 1 })
  closes_other :
      (s : Strip) (idx : ℕ)
      → idx < length s.pages
      → idx ≢ s.active
      → Step s (record s {
        pages = remove_at idx s.pages;
        active = if ltb idx s.active then s.active - 1 else s.active;
      })

pub data Steps : Strip → Strip → Type 0 where
  done : (s : Strip) → Steps s s
  step : (s t u : Strip) → Step s t → Steps t u → Steps s u

pub Steps-trans : (s t u : Strip) → Steps s t → Steps t u → Steps s u
Steps-trans _ _ u (done s) l = l
Steps-trans _ _ u (step s r t k ks) l = step s r u k (Steps-trans r t u ks l)

abbrev pub HasEntry : Page → Type 0
HasEntry (id, history, i) = i ≤ length history - 1

abbrev pub AreDistinct : List ℕ → Type 0
AreDistinct [] = Unit
AreDistinct (n ∷ ns) = All (λ m. m ≢ n) ns × AreDistinct ns

-- There is an active tab, the current entry of each history is one of it unless the history is
-- empty, and the ids differ and are below the next one.
pub record IsWellFormed (s : Strip) : Type 0 where
  pub active : s.active < length s.pages
  pub entries : All HasEntry s.pages
  pub used : All (λ n. n < s.next) (map page_id s.pages)
  pub distinct : AreDistinct (map page_id s.pages)
  pub counted : length s.pages ≤ s.next
  pub small : s.next < 2 ^ 32

All-remove_at :
    {A : Type 0} (P : A → Type 0) (n : ℕ) (xs : List A) → All P xs → All P (remove_at n xs)
unfolding remove_at
All-remove_at P n [] h = h
All-remove_at P zero (x ∷ xs) (p, h) = h
All-remove_at P (suc n) (x ∷ xs) (p, h) = (p, All-remove_at P n xs h)

pub map-remove_at :
    {A B : Type 0} (f : A → B) (n : ℕ) (xs : List A)
    → map f (remove_at n xs) ≡ remove_at n (map f xs)
unfolding remove_at
map-remove_at f n [] = refl
map-remove_at f zero (x ∷ xs) = refl
map-remove_at f (suc n) (x ∷ xs) = ap (λ ys. f x ∷ ys) (map-remove_at f n xs)

AreDistinct-remove_at : (n : ℕ) (ns : List ℕ) → AreDistinct ns → AreDistinct (remove_at n ns)
unfolding remove_at
AreDistinct-remove_at n [] h = h
AreDistinct-remove_at zero (m ∷ ns) (p, h) = h
AreDistinct-remove_at (suc n) (m ∷ ns) (p, h) =
    (All-remove_at (λ k. k ≢ m) n ns p, AreDistinct-remove_at n ns h)

pub length-remove_at :
    {A : Type 0} (n : ℕ) (xs : List A) → n < length xs → length (remove_at n xs) ≡ length xs - 1
unfolding remove_at
length-remove_at n [] h = refl
length-remove_at zero (x ∷ xs) h = omega arith
length-remove_at (suc n) (x ∷ xs) h = omega (arith, length-remove_at n xs (omega arith))

AreDistinct-append :
    (ns : List ℕ) (m : ℕ) → All (λ n. n < m) ns → AreDistinct ns → AreDistinct (ns ++ (m ∷ []))
AreDistinct-append [] m u h = (tt, tt)
AreDistinct-append (n ∷ ns) m (l, u) (p, h) =
    (All-append (λ k. k ≢ n) ns (m ∷ []) p (omega arith, tt), AreDistinct-append ns m u h)

weaken : (ns : List ℕ) (m : ℕ) → All (λ n. n < m) ns → All (λ n. n < m + 1) ns
weaken [] m u = tt
weaken (n ∷ ns) m (l, u) = (omega arith, weaken ns m u)

-- A change of one page that keeps its id and leaves it a current entry.
modified-IsWellFormed :
    (f : Page → Page) (idx : ℕ) (s : Strip)
    → ((p : Page) → page_id (f p) ≡ page_id p)
    → ((p : Page) → get_elem? s.pages idx ≡ some p → HasEntry (f p))
    → IsWellFormed s
    → IsWellFormed (record s { pages = modify f idx s.pages })
modified-IsWellFormed f idx s same has w =
    let ids = sym (map-modify f page_id idx s.pages same) in
    record {
      active = omega (arith, length-modify f idx s.pages, w.active);
      entries = All-modify f HasEntry idx s.pages has w.entries;
      used = subst (All (λ n. n < s.next)) ids w.used;
      distinct = subst AreDistinct ids w.distinct;
      counted = omega (arith, length-modify f idx s.pages, w.counted);
      small = w.small;
    }

removed-IsWellFormed :
    (idx active : ℕ) (s : Strip)
    → idx < length s.pages
    → active < length s.pages - 1
    → IsWellFormed s
    → IsWellFormed (record s { pages = remove_at idx s.pages; active = active })
removed-IsWellFormed idx active s h k w =
    let ids = sym (map-remove_at page_id idx s.pages) in
    let len = length-remove_at idx s.pages h in
    record {
      active = omega (arith, len);
      entries = All-remove_at HasEntry idx s.pages w.entries;
      used =
          subst (All (λ n. n < s.next)) ids
            (All-remove_at (λ n. n < s.next) idx (map page_id s.pages) w.used);
      distinct = subst AreDistinct ids (AreDistinct-remove_at idx (map page_id s.pages) w.distinct);
      counted = omega (arith, len, w.counted);
      small = w.small;
    }

pub Step-IsWellFormed : (s t : Strip) → Step s t → IsWellFormed s → IsWellFormed t
Step-IsWellFormed _ _ (pushes s idx target) w =
    modified-IsWellFormed (push_page target) idx s (λ p. refl) (λ p h. omega arith) w
Step-IsWellFormed _ _ (visits s idx j p at fits) w =
    modified-IsWellFormed (at_entry j) idx s (λ q. refl)
      (λ q h. let e : p ≡ q = cc (at, h) in omega (arith, ap (λ x. length x.1) e)) w
Step-IsWellFormed _ _ (opens s room) w =
    let ids : map page_id s.pages ++ (s.next ∷ [])
        ≡ map page_id (s.pages ++ ((s.next, [], 0) ∷ [])) =
      sym (map-append page_id s.pages ((s.next, [], 0) ∷ [])) in
    record {
      active = omega (arith, length-append s.pages ((s.next, [], 0) ∷ []), w.active);
      entries = All-append HasEntry s.pages _ w.entries (omega arith, tt);
      used =
          subst (All (λ n. n < s.next + 1)) ids
            (All-append (λ n. n < s.next + 1) _ _ (weaken _ s.next w.used) (omega arith, tt));
      distinct = subst AreDistinct ids (AreDistinct-append _ s.next w.used w.distinct);
      counted = omega (arith, length-append s.pages ((s.next, [], 0) ∷ []), w.counted);
      small = room;
    }
Step-IsWellFormed _ _ (activates s idx h) w = record {
  active = h;
  entries = w.entries;
  used = w.used;
  distinct = w.distinct;
  counted = w.counted;
  small = w.small;
}
Step-IsWellFormed _ _ (closes_active s more) w =
    removed-IsWellFormed s.active (s.active - 1) s w.active (omega (arith, w.active)) w
Step-IsWellFormed _ _ (closes_other s idx h ne) w =
    removed-IsWellFormed idx _ s h (ground (arith, w.active)) w

pub Steps-IsWellFormed : (s t : Strip) → Steps s t → IsWellFormed s → IsWellFormed t
Steps-IsWellFormed _ _ (done s) w = w
Steps-IsWellFormed _ _ (step s r t k ks) w = Steps-IsWellFormed r t ks (Step-IsWellFormed s r k w)
