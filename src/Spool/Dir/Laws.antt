-- ===== src/Spool/Dir/Laws.antt =====
-- The laws of the directory's operations.
use log_service.Prelude.{
  ◌+◌, ◌≤◌, ◌≡◌, refl, true, false, none, some, List, [], ◌∷◌, ◌++◌, if◌then◌else◌, arith,
}
use log_service.Prelude.Text.{Text, text_eq, text_eq_iff, text_eq_refl, byte_len, has_suffix}
use log_service.Spool.Dir.{File, read, put, remove, rename, is_tmp, used_bytes}

pub read-put :
    (k j v : Text) (fs : List File)
    → read j (put k v fs) ≡ (if text_eq k j then some v else read j fs)
unfolding read put
read-put k j v [] = refl
read-put k j v (f ∷ fs) =
    ground (arith, text_eq_iff f.path k, text_eq_iff f.path j, text_eq_iff k j, read-put k j v fs)

read-put_self : (k v : Text) (fs : List File) → read k (put k v fs) ≡ some v
read-put_self k v fs = rw (read-put k k v fs, text_eq_refl k)

pub read-remove :
    (k j : Text) (fs : List File) → read j (remove k fs) ≡ (if text_eq k j then none else read j fs)
unfolding read remove
read-remove k j [] = ground arith
read-remove k j (f ∷ fs) =
    ground (arith, text_eq_iff f.path k, text_eq_iff f.path j, text_eq_iff k j, read-remove k j fs)

-- A rename over a file that was just written.
pub read-rename-put :
    (old new v j : Text) (fs : List File)
    → read j (rename old new (put old v fs))
      ≡ (if text_eq new j then some v else if text_eq old j then none else read j fs)
unfolding rename
read-rename-put old new v j fs =
    rw (read-put_self old v fs, rename)
      (ground (
        arith,
        read-put new j v (remove old (put old v fs)),
        read-remove old j (put old v fs),
        read-put old j v fs,
      ))

pub has_suffix-append : (s p : Text) → has_suffix (s ++ p) p ≡ true
unfolding has_suffix
has_suffix-append [] [] = text_eq_refl []
has_suffix-append [] (c ∷ p) = rw (text_eq_refl (c ∷ p))
has_suffix-append (c ∷ s) p = ground (arith, has_suffix-append s p)

pub used_bytes-put-le :
    (k v : Text) (fs : List File) → used_bytes (put k v fs) ≤ used_bytes fs + byte_len v
unfolding used_bytes put
used_bytes-put-le k v [] = ground arith
used_bytes-put-le k v (f ∷ fs) = ground (arith, used_bytes-put-le k v fs)

pub used_bytes-put_tmp :
    (k v : Text) (fs : List File) → is_tmp k ≡ true → used_bytes (put k v fs) ≡ used_bytes fs
unfolding used_bytes put
used_bytes-put_tmp k v [] h = ground arith
used_bytes-put_tmp k v (f ∷ fs) h =
    ground (arith, text_eq_iff f.path k, used_bytes-put_tmp k v fs h)

pub used_bytes-remove-le : (k : Text) (fs : List File) → used_bytes (remove k fs) ≤ used_bytes fs
unfolding used_bytes remove
used_bytes-remove-le k [] = omega arith
used_bytes-remove-le k (f ∷ fs) = ground (arith, used_bytes-remove-le k fs)

pub used_bytes-rename-put_le :
    (old new v : Text) (fs : List File)
    → is_tmp old ≡ true
    → used_bytes (rename old new (put old v fs)) ≤ used_bytes fs + byte_len v
unfolding rename
used_bytes-rename-put_le old new v fs h =
    rw (read-put_self old v fs, rename)
      (omega (
        arith,
        used_bytes-put-le new v (remove old (put old v fs)),
        used_bytes-remove-le old (put old v fs),
        used_bytes-put_tmp old v fs h,
      ))

used_bytes-put_new :
    (k v : Text) (fs : List File)
    → is_tmp k ≡ false
    → read k fs ≡ none
    → used_bytes (put k v fs) ≡ used_bytes fs + byte_len v
unfolding used_bytes put read
used_bytes-put_new k v [] h new = ground arith
used_bytes-put_new k v (f ∷ fs) h new = ground (arith, used_bytes-put_new k v fs h)

used_bytes-remove_tmp :
    (k : Text) (fs : List File) → is_tmp k ≡ true → used_bytes (remove k fs) ≡ used_bytes fs
unfolding used_bytes remove
used_bytes-remove_tmp k [] h = refl
used_bytes-remove_tmp k (f ∷ fs) h =
    ground (arith, text_eq_iff f.path k, used_bytes-remove_tmp k fs h)

-- A file that is written beside its path and moved to a path that is free adds its size.
pub used_bytes-rename-put_new :
    (old new v : Text) (fs : List File)
    → is_tmp old ≡ true
    → is_tmp new ≡ false
    → read new fs ≡ none
    → used_bytes (rename old new (put old v fs)) ≡ used_bytes fs + byte_len v
unfolding rename
used_bytes-rename-put_new old new v fs tmp batch free =
    rw (read-put_self old v fs, rename)
      (omega (
        arith,
        used_bytes-put_new new v (remove old (put old v fs)) batch (
            ground (
              arith,
              read-remove old new (put old v fs),
              read-put old new v fs,
              text_eq_iff old new,
            )),
        used_bytes-remove_tmp old (put old v fs) tmp,
        used_bytes-put_tmp old v fs tmp,
      ))
