-- ===== src/Http/Encoding/Laws.antt =====
-- http/mod.rs, `TransferEncoding`: printing and reading, and the chunked bit.
use ws_platform.Common.{ℕ, zero, suc, ◌<◌, Bool, true, ◌&&◌, ◌≡◌, refl, arith, ◌==◌, ==_iff, trim}
use ws_platform.Http.Encoding.{new, format}

-- Printing and reading gives back this set of codings.
abbrev survives : ℕ → Bool
survives te = new (format te) == te

-- Every set up to the given number survives.
survive_upto : ℕ → Bool
survive_upto zero = survives zero
survive_upto (suc te) = survive_upto te && survives (suc te)

survive_upto-survives :
    (last te : ℕ) → te < suc last → survive_upto last ≡ true → survives te ≡ true
unfolding survive_upto
survive_upto-survives zero zero below all = all
survive_upto-survives zero (suc te) below all = absurd (omega arith)
survive_upto-survives (suc last) te below all = ground (arith, all, survive_upto-survives last te)

codings_survive : survive_upto 31 ≡ true
unfolding survive_upto new format trim
codings_survive = refl

-- A set of the five codings, printed into the header and read back, is the same set.
pub new-format : (te : ℕ) → te < 32 → new (format te) ≡ te
new-format te h = (==_iff _ te).0 (survive_upto-survives 31 te h codings_survive)
