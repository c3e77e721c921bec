-- ===== src/Dcron/Packer/Laws.antt =====
-- What container/heap promises of a heap in order, and lists of jobs up to their order.
use go_dispatch.Dcron.Packer.{job_less, is_outdated, JobWithTime, Heap}
use go_dispatch.Base.Keys.{text_eq}
use go_dispatch.Base.Shared.{
  if◌then◌else◌, Bool-cases, length, All, count_by, ℕ, ◌≡◌, refl, sym, ◌∙◌, inl, inr, Bool, true,
  false, not, ◌&&◌, some, List, [], ◌∷◌, arith,
}

-- The same jobs, each as often, in any order.
abbrev pub SameJobs : List JobWithTime → List JobWithTime → Type 0
SameJobs xs ys = (p : JobWithTime → Bool) → count_by p xs ≡ count_by p ys

-- What container/heap documents of a heap in order: Init, Push and Pop keep it in order, the least
-- element stands at index 0, and Pop takes that one out.
pub record HeapLaws (h : Heap) : Type 1 where
  pub IsHeap : List JobWithTime → Type 0
  pub least :
      (x : JobWithTime) (xs : List JobWithTime)
      → IsHeap (x ∷ xs)
      → All (λ y. job_less y x ≡ false) xs
  pub init-nil : (h.init [] ≡ []) × IsHeap []
  pub push-IsHeap :
      (x : JobWithTime) (xs : List JobWithTime)
      → IsHeap xs
      → IsHeap (h.push x xs) × SameJobs (h.push x xs) (x ∷ xs)
  pub pop-IsHeap :
      (x : JobWithTime) (xs : List JobWithTime)
      → IsHeap (x ∷ xs)
      → (left : List JobWithTime) × (h.pop (x ∷ xs) ≡ some (x, left))
        × IsHeap left
        × SameJobs left xs

-- The jobs that are not outdated.
abbrev pub recent_of : ℕ → ℕ → List JobWithTime → List JobWithTime
recent_of window now [] = []
recent_of window now (job ∷ jobs) =
    let rest = recent_of window now jobs in if is_outdated window now job then rest else job ∷ rest

pub recent_of-old :
    (window now : ℕ) (x : JobWithTime) (xs : List JobWithTime)
    → is_outdated window now x ≡ true
    → recent_of window now (x ∷ xs) ≡ recent_of window now xs
recent_of-old window now x xs e = rw e refl

pub recent_of-new :
    (window now : ℕ) (x : JobWithTime) (xs : List JobWithTime)
    → is_outdated window now x ≡ false
    → recent_of window now (x ∷ xs) ≡ x ∷ recent_of window now xs
recent_of-new window now x xs e = rw e refl

count_recent :
    (p : JobWithTime → Bool) (window now : ℕ) (jobs : List JobWithTime)
    → count_by p (recent_of window now jobs)
      ≡ count_by (λ j. not (is_outdated window now j) && p j) jobs
count_recent p window now [] = refl
count_recent p window now (job ∷ jobs) = ground (arith, count_recent p window now jobs)

pub SameJobs-recent_of :
    (window now : ℕ) (xs ys : List JobWithTime)
    → SameJobs xs ys
    → SameJobs (recent_of window now xs) (recent_of window now ys)
SameJobs-recent_of window now xs ys same p =
    count_recent p window now xs
    ∙ same (λ j. not (is_outdated window now j) && p j)
    ∙ sym (count_recent p window now ys)

length-count_by : (xs : List JobWithTime) → length xs ≡ count_by (λ j. true) xs
length-count_by [] = refl
length-count_by (x ∷ xs) = ground (arith, length-count_by xs)

pub SameJobs-length : (xs ys : List JobWithTime) → SameJobs xs ys → length xs ≡ length ys
SameJobs-length xs ys same = length-count_by xs ∙ same (λ j. true) ∙ sym (length-count_by ys)

-- Where the root is not outdated, nothing is.
pub none_outdated :
    (window now : ℕ) (x : JobWithTime) (xs : List JobWithTime)
    → is_outdated window now x ≡ false
    → All (λ y. job_less y x ≡ false) xs
    → recent_of window now xs ≡ xs
unfolding is_outdated job_less
none_outdated window now x [] e h = refl
none_outdated window now x (y ∷ ys) e h = ground (arith, h.0, none_outdated window now x ys e h.1)

pub count-All :
    {A : Type 0} (q : A → Bool) (xs : List A) → All (λ y. q y ≡ false) xs → count_by q xs ≡ 0
count-All q [] h = refl
count-All q (x ∷ xs) h = ground (arith, h.0, count-All q xs h.1)

pub All-count :
    {A : Type 0} (q : A → Bool) (xs : List A) → count_by q xs ≡ 0 → All (λ y. q y ≡ false) xs
All-count q [] h = tt
All-count q (x ∷ xs) h = elim (Bool-cases (q x)) [
  | inl e ↦ absurd (ground (arith, e, h))
  | inr e ↦ (e, All-count q xs (ground (arith, e, h)))
]
