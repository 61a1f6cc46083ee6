-- ===== src/Interp/Sound/Objects.antt =====
-- Method lookup keeps every word live.
use cc_implementation.Prelude.{ℕ, zero, suc, ◌+◌, ◌-◌, ◌*◌, ◌/◌, ◌%◌, ◌^◌, bit_and, ltb, ◌==◌}
use cc_implementation.Profile.{Profile}
use cc_implementation.Word.{slt64, sext32, val_long}
use cc_implementation.Interp.Machine.{Value, Machine, Exec, ok, ◌>>=◌}
use cc_implementation.Interp.Memory.{write, push, skip, load}
use cc_implementation.Interp.Objects.{
  getmethod, middle, find_tag, tag_field, int_bound, search_method, getdynmet, getpubmet,
}
use cc_implementation.Interp.Sound.{Kept, Post, returns, faults, bind}
use cc_implementation.Interp.Sound.Access.{
  with_accu, push-Kept, fetch-Post, operand-Post, slot-Post, load-Post, as_long-Post, as_word-Post,
  write_any-Post,
}
use cc_implementation.Interp.Sound.Basic.{if_both}

-- A number, which holds no word.
abbrev Number : ℕ → ℕ → (Profile → Type 0) → Exec ℕ → Type 0
Number h n p e = Post h n p (λ (_ : ℕ). Unit {0}) e

module _ {h n : ℕ} {p : Profile → Type 0} where
  find_tag-Post :
      (fuel : ℕ) (tag_at : ℕ → Exec ℕ) (tag li hi : ℕ)
      → ((i : ℕ) → Number h n p (tag_at i))
      → Number h n p (find_tag fuel tag_at tag li hi)
  unfolding find_tag
  find_tag-Post zero tag_at tag li hi reads = faults
  find_tag-Post (suc fuel) tag_at tag li hi reads =
      let mi = middle li hi in
      if_both (Number h n p) (ltb li hi)
        (if_both (Number h n p) (ltb (li + hi) (2 ^ 31))
          (bind (reads mi) (λ t _.
            if_both (Number h n p) (slt64 tag t) (find_tag-Post fuel tag_at tag li (mi - 2) reads)
              (find_tag-Post fuel tag_at tag mi hi reads)))
          faults)
        (returns li tt)

  module _ (m : Machine) (k : Kept h n p m) where
    tag_field-Post : (meths : Value) (i : ℕ) → Number h n p (tag_field m meths i)
    tag_field-Post meths i = bind (load-Post m k meths i) (λ v _. as_word-Post v)

    search_method-Post : (meths : Value) (tag : ℕ) → Number h n p (search_method m meths tag)
    unfolding search_method
    search_method-Post meths tag = bind (tag_field-Post meths 0) (λ w _.
        find_tag-Post (suc (int_bound w)) (tag_field m meths) tag 3 (int_bound w)
          (tag_field-Post meths))

    pub getmethod-Post : Post h n p (Kept h n p) (getmethod m)
    unfolding getmethod
    getmethod-Post = bind (slot-Post m k 0) (λ obj _. bind (load-Post m k obj 0) (λ meths _.
        bind (as_long-Post m.accu) (λ lab _.
          bind (load-Post m k meths (sext32 (lab % 2 ^ 32)))
            (λ v l. returns _ (with_accu m k v l)))))

    pub getdynmet-Post : Post h n p (Kept h n p) (getdynmet m)
    unfolding getdynmet
    getdynmet-Post = bind (slot-Post m k 0) (λ obj _. bind (load-Post m k obj 0) (λ meths _.
        bind (as_word-Post m.accu) (λ tag _.
          bind (search_method-Post meths tag)
            (λ li _. bind (load-Post m k meths (li - 1)) (λ v l. returns _ (with_accu m k v l))))))

  module _ (m : Machine) (k : Kept h n p m) where
    -- A search of GETPUBMET that the cache does not answer.
    searched-Post :
        (meths : Value) (tag : ℕ)
        → Post h n p (Kept h n p) (
            search_method m meths tag >>= λ li. load m meths (li - 1) >>= λ v.
            write m.code m.pc (((li - 3) * 8) % 2 ^ 32) >>= λ c.
            ok (record (skip m) { accu = v; code = c }))
    searched-Post meths tag = bind (search_method-Post m k meths tag) (λ li _.
        bind (load-Post m k meths (li - 1)) (λ v l.
          bind (write_any-Post m.code m.pc (((li - 3) * 8) % 2 ^ 32))
            (λ c _. returns _ (with_accu (record (skip m) { code = c }) k v l))))

  module _ (m : Machine) (k : Kept h n p m) where
    pub getpubmet-Post : Post h n p (Kept h n p) (getpubmet m)
    unfolding getpubmet
    getpubmet-Post = bind (load-Post m k m.accu 0) (λ meths _.
        bind (fetch-Post (push m.accu m) (push-Kept m k m.accu k.0.2)) (λ q kq.
          bind (operand-Post q.1) (λ cache _. bind (tag_field-Post q.1 kq meths 1) (λ mask _.
            let ofs = bit_and cache mask in
            bind
              (if_both (Number h n p) (ofs % 8 == 0) (tag_field-Post q.1 kq meths (3 + ofs / 8))
                faults)
              (λ cached _.
                if_both (Post h n p (Kept h n p)) (cached == val_long q.0)
                  (bind (load-Post q.1 kq meths (2 + ofs / 8))
                    (λ v l. returns _ (with_accu (skip q.1) kq v l)))
                  (searched-Post q.1 kq meths (val_long q.0)))))))
