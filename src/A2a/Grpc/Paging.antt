-- ===== src/A2a/Grpc/Paging.antt =====
-- The pages of `ListTasks` in a2a/grpc/grpc.go.
use mathlib.Core.List.{Memᴰ}
use native.Mathlib.Nat.{suc-add, zero-add}
use gori.Prelude.{
  ltb, Bool-cases, length, take, drop, take-nil, length-drop, take-append-drop, ℕ, zero, suc, ◌+◌,
  ◌-◌, ◌≤◌, ◌<◌, ◌≡◌, refl, sym, ap, ◌∙◌, ◌⊎◌, inl, inr, Bool, Option, none, some, List, [], ◌∷◌,
  ◌++◌, arith,
}
use gori.Prelude.Int.{ℤ, pos, negsuc}
use gori.A2a.{Task}
use gori.A2a.Store.{Store}
use gori.A2a.Grpc.{PbTask, Codec}
use gori.A2a.Grpc.Calls.{
  list_tasks, ListRequest, ListReply, page_size_of, start_of, end_of, next_token, page,
  wanted_tasks, sort_tasks,
}
use gori.A2a.Grpc.Sorted.{IsOrder, Separate}
use gori.A2a.Grpc.Listed.{Lists, sort-Lists, Lists-unique}
use gori.A2a.Store as Stored

ends_or_goes_on : (l e : ℕ) → (l ≤ e) ⊎ (e < l)
ends_or_goes_on l e = elim (Bool-cases (ltb e l)) [
  | inl more ↦ inr (ground (arith, more))
  | inr last ↦ inl (ground (arith, last))
]

-- What a client gets that asks for the page of a token, and then for that of the token in each reply,
-- for at most as many pages as the number says. A reply without a token is the last.
module _ {A : Type 0} where
  unfoldable join_pages : List A → Option (List A) → Option (List A)
  join_pages ts none = none
  join_pages ts (some us) = some (ts ++ us)

  unfoldable after_page : List A → ℕ → (ℕ → Option (List A)) → Option (List A)
  unfolding join_pages
  after_page ts zero later = some ts
  after_page ts (suc k) later = join_pages ts (later (suc k))

  unfoldable pub follow : (ℕ → ℕ → ListReply A) → ℕ → ℕ → Option (List A)
  unfolding after_page
  follow ask zero token = none
  follow ask (suc n) token =
      after_page (ask n token).tasks (ask n token).next_page_token (follow ask n)

  take_all : (n : ℕ) (xs : List A) → length xs ≤ n → take n xs ≡ xs
  take_all n [] h = take-nil n
  take_all zero (x ∷ xs) h = absurd (omega (arith, h))
  take_all (suc n) (x ∷ xs) h = ap (λ ys. x ∷ ys) (take_all n xs (omega (arith, h)))

  drop-drop : (n m : ℕ) (xs : List A) → drop m (drop n xs) ≡ drop (n + m) xs
  drop-drop zero m xs = rw zero-add refl
  drop-drop (suc n) zero [] = rw suc-add refl
  drop-drop (suc n) (suc m) [] = rw suc-add refl
  drop-drop (suc n) m (x ∷ xs) = rw suc-add (drop-drop n m xs)

  start_of-within : (token : ℕ) (all : List A) → token ≤ length all → start_of token all ≡ token
  unfolding start_of
  start_of-within token all h = ground arith

  end_of-last :
      (start size : ℕ) (all : List A)
      → length all ≤ start + size
      → end_of start size all ≡ length all
  unfolding end_of
  end_of-last start size all h = ground arith

  end_of-inner :
      (start size : ℕ) (all : List A)
      → start + size < length all
      → end_of start size all ≡ start + size
  unfolding end_of
  end_of-inner start size all h = ground arith

  next_token-last : (all : List A) → next_token (length all) all ≡ 0
  unfolding next_token
  next_token-last all = ground arith

  next_token-inner : (end : ℕ) (all : List A) → end < length all → next_token end all ≡ end
  unfolding next_token
  next_token-inner end all h = ground arith

  -- The last page holds all that is left, and names no further page.
  page_last :
      (size token : ℕ) (all : List A)
      → token ≤ length all
      → length all ≤ token + size
      → page size token all ≡ record {
        tasks = drop token all;
        total_size = length all;
        page_size = size;
        next_page_token = 0;
      }
  unfolding page
  page_last size token all h k =
      rw
        (
          start_of-within token all h,
          end_of-last token size all k,
          next_token-last all,
          take_all (length all - token) (drop token all) (omega (arith, length-drop token all)),
        )
        refl

  page_inner :
      (size token : ℕ) (all : List A)
      → token ≤ length all
      → token + size < length all
      → page size token all ≡ record {
        tasks = take size (drop token all);
        total_size = length all;
        page_size = size;
        next_page_token = token + size;
      }
  unfolding page
  page_inner size token all h k =
      rw
        (
          start_of-within token all h,
          end_of-inner token size all k,
          next_token-inner (token + size) all k,
          rest token size,
        )
        refl
    where
      rest : (t z : ℕ) → (t + z) - t ≡ z
      rest t z = omega arith

  after_inner :
      (ts us : List A) (next : ℕ) (later : ℕ → Option (List A))
      → 0 < next
      → later next ≡ some us
      → after_page ts next later ≡ some (ts ++ us)
  unfolding after_page join_pages
  after_inner ts us zero later h e = absurd (omega (arith, h))
  after_inner ts us (suc k) later h e = rw e refl

  follow-page :
      (ask : ℕ → ℕ → ListReply A) (size n token : ℕ) (all : List A)
      → ((m t : ℕ) → ask m t ≡ page size t all)
      → 0 < size
      → token ≤ length all
      → length all ≤ token + n
      → follow ask (suc n) token ≡ some (drop token all)
  unfolding follow after_page
  follow-page ask size zero token all asks pos_ h k =
      rw (asks 0 token, page_last size token all h (omega (arith, k))) refl
  follow-page ask size (suc n) token all asks pos_ h k =
      elim (ends_or_goes_on (length all) (token + size)) [
        | inl last ↦ rw (asks (suc n) token, page_last size token all h last) refl
        | inr more ↦
            rw (asks (suc n) token, page_inner size token all h more)
              (after_inner (take size (drop token all)) (drop (token + size) all) (token + size)
                  (follow ask (suc n)) (omega (arith, pos_))
                  (follow-page ask size n (token + size) all asks pos_ (omega (arith, more))
                    (omega (arith, k, pos_)))
                ∙ ap some
                    (rw (sym (drop-drop token size all)) (take-append-drop size (drop token all))))
      ]

page_size_of-positive : (n : ℤ) → 0 < page_size_of n
unfolding page_size_of
page_size_of-positive (negsuc n) = omega arith
page_size_of-positive (pos n) = ground arith

-- A client starts without a token and follows the tokens of the replies, while the store keeps the same
-- tasks with different ids; each call may see them in another order, as that of a map. Whatever size of
-- page it asks for, it gets all the tasks that pass its filters and no others, each once and in the
-- order of their ids, after at most one page more than there are such tasks.
pub list_tasks_pages :
    {R V : Type 0} (c : Codec R V) (before : ℕ → ℕ → Bool) (order : IsOrder before)
    (r : ListRequest) (s : ℕ → Store)
    → ((n : ℕ) → Separate (Stored.list_tasks (s n)))
    → ((n m : ℕ) (t : Task) → Memᴰ t (Stored.list_tasks (s n)) → Memᴰ t (Stored.list_tasks (s m)))
    → (xs : List (PbTask R V)) × Lists c before order r (Stored.list_tasks (s 0)) xs
      × (follow
            (λ n token. list_tasks c before (record r { page_token = token }) (s n))
            (suc (length xs))
            0
          ≡ some xs)
unfolding list_tasks
list_tasks_pages c before order r s separate same =
    let xs = sort_tasks before (wanted_tasks c r.context_id r.status (Stored.list_tasks (s 0))) in
    let lists : (n : ℕ)
        → Lists c before order r (Stored.list_tasks (s n))
            (sort_tasks before (wanted_tasks c r.context_id r.status (Stored.list_tasks (s n)))) =
      λ n. sort-Lists c before order r (Stored.list_tasks (s n)) (separate n) in
    (
      xs,
      lists 0,
      follow-page _ (page_size_of r.page_size) (length xs) 0 xs
          (λ m t. ap (page (page_size_of r.page_size) t) (
            Lists-unique c before order r (Stored.list_tasks (s m)) (Stored.list_tasks (s 0)) _ xs
              (same m 0) (same 0 m) (lists m) (lists 0)))
          (page_size_of-positive r.page_size) (omega arith) (omega arith),
    )
