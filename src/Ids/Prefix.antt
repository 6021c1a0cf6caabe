-- ===== src/Ids/Prefix.antt =====
-- `ulid_of` undoes the prefix that `new_id` puts in front, and a ULID has 26 characters.
use Prim.Native.String
use Prim.Native.String.{[], ◌∷◌}
use text.Mathlib.TextLemmas.{nil-append, cons-append}
use beacn.Base.{◌+◌, ◌≡◌, ap, ◌∙◌, true, false, String, arith, size}
use beacn.Ids.{Clock, ulid, new_id, has_underscore, after_underscore, ulid_of}
use beacn.Ids.Encoding.{size-encode_from, ulid-eq}

found_after :
    (prefix u : String)
    → has_underscore prefix ≡ false
    → has_underscore (String.◌++◌ prefix (String.◌++◌ "_" u)) ≡ true
found_after [] u h = rw (nil-append, cons-append)
found_after (c ∷ s) u h = rw cons-append (ground (arith, found_after s u))

after_prefix :
    (prefix u : String)
    → has_underscore prefix ≡ false
    → after_underscore (String.◌++◌ prefix (String.◌++◌ "_" u)) ≡ u
unfolding after_underscore
after_prefix [] u h = rw (nil-append, cons-append, nil-append)
after_prefix (c ∷ s) u h = rw cons-append (ground (arith, after_prefix s u))

-- The ULID part of a new id is the ULID that the call drew, for a prefix without an underscore.
pub ulid_of-new_id :
    (prefix : String) (c : Clock)
    → has_underscore prefix ≡ false
    → ulid_of (new_id prefix c) ≡ ulid c
unfolding ulid_of new_id
ulid_of-new_id prefix c h =
    ground (arith, found_after prefix (ulid c) h, after_prefix prefix (ulid c) h)

-- Every ULID has 26 characters, whatever the clock reads and the random field holds.
pub size-ulid : (c : Clock) → size (ulid c) ≡ 26
size-ulid c =
    ap size (ulid-eq c)
    ∙ size-encode_from 10 c.last_ms _
    ∙ ap (λ n. 10 + n) (size-encode_from 16 c.last_rand "")
