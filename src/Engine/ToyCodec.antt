-- ===== src/Engine/ToyCodec.antt =====
-- A codec for the runs of internal/engine/supervisor.go: it stands for JSON, and writes the numbers of
-- a record and then its texts, each behind its length.
use boxctl.Base.{
  ℕ, zero, suc, ◌≡◌, refl, ap, ◌∙◌, sym, Option, none, some, List, [], ◌∷◌, ◌++◌, length,
}
use boxctl.Base.Text.{Text}
use mathlib.Core.List.{append_assoc}
use boxctl.Engine.StateFile.{PersistedProcess, Codec, CodecLaws}

abbrev split_at : ℕ → Text → Text × Text
split_at zero s = ([], s)
split_at (suc n) [] = ([], [])
split_at (suc n) (c ∷ s) = (c ∷ (split_at n s).0, (split_at n s).1)

abbrev put_all : List Text → Text → Text
put_all [] rest = rest
put_all (t ∷ ts) rest = length t ∷ (t ++ put_all ts rest)

abbrev get_first : Text → Text × Text
get_first [] = ([], [])
get_first (n ∷ s) = split_at n s

abbrev get_all : ℕ → Text → List Text
get_all zero s = []
get_all (suc n) s = (get_first s).0 ∷ get_all n (get_first s).1

split_at-append : (t rest : Text) → split_at (length t) (t ++ rest) ≡ (t, rest)
split_at-append [] rest = refl
split_at-append (c ∷ t) rest = ap (λ (p : Text × Text). (c ∷ p.0, p.1)) (split_at-append t rest)

get_all-put_all : (ts : List Text) (rest : Text) → get_all (length ts) (put_all ts rest) ≡ ts
get_all-put_all [] rest = refl
get_all-put_all (t ∷ ts) rest =
    ap (λ (p : Text × Text). p.0 ∷ get_all (length ts) p.1) (split_at-append t (put_all ts rest))
    ∙ ap (λ l. t ∷ l) (get_all-put_all ts rest)

put_all-append :
    (ts : List Text) (rest more : Text) → put_all ts rest ++ more ≡ put_all ts (rest ++ more)
put_all-append [] rest more = refl
put_all-append (t ∷ ts) rest more =
    ap (λ s. length t ∷ s)
      (append_assoc t (put_all ts rest) more ∙ ap (λ s. t ++ s) (put_all-append ts rest more))

abbrev texts_of : PersistedProcess → List Text
texts_of p =
    p.engine ∷ p.execution.identity ∷ p.execution.executable ∷ p.prepared.engine
    ∷ p.prepared.binary_path ∷ p.prepared.runtime_config_path ∷ p.prepared.details
    ∷ p.execution.argv

abbrev from_texts : ℕ → ℕ → ℕ → List Text → Option PersistedProcess
from_texts version pid started_at
      (engine ∷ identity ∷ executable ∷ core ∷ binary ∷ config ∷ details ∷ argv) =
    some (record {
      version = version;
      engine = engine;
      pid = pid;
      execution = record { identity = identity; executable = executable; argv = argv };
      started_at = started_at;
      prepared = record {
        engine = core;
        binary_path = binary;
        runtime_config_path = config;
        details = details;
      };
    })
from_texts version pid started_at _ = none

abbrev pub written : PersistedProcess → Text
written p = p.version ∷ p.pid ∷ p.started_at ∷ length (texts_of p) ∷ put_all (texts_of p) []

abbrev pub toy_decode : Text → Option PersistedProcess
toy_decode (version ∷ pid ∷ started_at ∷ n ∷ s) = from_texts version pid started_at (get_all n s)
toy_decode _ = none

abbrev toy_header : Text → Option ℕ
toy_header [] = none
toy_header (version ∷ s) = some version

abbrev pub toy_codec : Codec
toy_codec = record {
  encode = λ p. some (written p);
  header = toy_header;
  decode = toy_decode;
  decode_legacy = λ _. none;
}

pub toy_decode-written : (p : PersistedProcess) → toy_decode (written p ++ 10 ∷ []) ≡ some p
toy_decode-written p =
    ap (λ s. from_texts p.version p.pid p.started_at (get_all (length (texts_of p)) s))
      (put_all-append (texts_of p) [] (10 ∷ []))
    ∙ ap (from_texts p.version p.pid p.started_at) (get_all-put_all (texts_of p) (10 ∷ []))

pub some_text : (s text : Text) → some s ≡ some text → s ≡ text
some_text s text h = cc

pub toy_laws : CodecLaws toy_codec
toy_laws = record {
  header-encode =
      λ p text h. ap (λ s. toy_header (s ++ 10 ∷ [])) (sym (some_text (written p) text h));
  decode-encode = λ p text utf8 h.
      ap (λ s. toy_decode (s ++ 10 ∷ [])) (sym (some_text (written p) text h))
      ∙ toy_decode-written p;
}
