-- ===== src/Codec.antt =====
-- What the collectors, the reader and the recorders call outside of the repository: compress/zlib, the
-- hash packages, the JSON of mongo-driver and the arithmetic of doubles, as one record of operations
-- and one of laws.
use ftdc.Prelude.{ℕ, List, [], Bool, ◌≡◌, ◌≢◌}
use ftdc.Result.{Result, ok}
use ftdc.Word.{IsWord}
use ftdc.Bson.{Document}

pub record Codec : Type 0 where
  -- what zlib.NewWriter writes, and what zlib.NewReader reads
  pub compress : List ℕ → List ℕ
  pub decompress : List ℕ → Result (List ℕ)
  -- bson.MarshalExtJSON
  pub ext_json : Document → Result (List ℕ)
  -- the checksums of hash/fnv, crypto/md5 and crypto/sha1 over what was written, in hexadecimal
  pub fnv64 : List ℕ → List ℕ
  pub md5 : List ℕ → List ℕ
  pub sha1 : List ℕ → List ℕ
  -- `a - b` on doubles, and whether a double is a given integer, on their bits
  pub float_sub : ℕ → ℕ → ℕ
  pub float_is : ℕ → ℕ → Bool

pub record CodecLaws (c : Codec) : Type 0 where
  pub float_sub-IsWord : (a b : ℕ) → IsWord (c.float_sub a b)
  -- "%x" of a sum of eight bytes
  pub fnv64-ne-nil : (bytes : List ℕ) → c.fnv64 bytes ≢ []
  pub decompress-compress : (bytes : List ℕ) → c.decompress (c.compress bytes) ≡ ok bytes
