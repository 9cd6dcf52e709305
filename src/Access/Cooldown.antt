-- ===== src/Access/Cooldown.antt =====
-- internal/service/access/cd.go: the cooldowns of CountDownRepo.
use ktauth.Prelude.{String, Bool}
use ktauth.Effects.{Op}
use ktauth.Redis.{Redis}
use ktauth.Repository.Keys.{countdown_set, countdown_cd}

pub record CountDownStore (W : Type 0) : Type 0 where
  pub set : String → Op W (Unit {0})
  pub cd : String → Op W Bool

-- CountDownRepo
abbrev pub countdown_store : {W : Type 0} → Redis W → CountDownStore W
countdown_store r = record { set = countdown_set r; cd = countdown_cd r }

module _ {W : Type 0} (cd_repo : CountDownStore W) where
  -- CDService.Set
  abbrev pub set : String → Op W (Unit {0})
  set key w = cd_repo.set key w

  -- CDService.Check
  abbrev pub check : String → Op W Bool
  check key w = cd_repo.cd key w
