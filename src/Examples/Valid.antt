-- ===== src/Examples/Valid.antt =====
-- The databases of the examples are valid.
use asset_pilot_fastapi.Examples.Data.{rival, request, holding, rivalled, waiting}
use asset_pilot_fastapi.Invariant.{IsValid}
use asset_pilot_fastapi.Database.{collides}
use asset_pilot_fastapi.Table.{find}
use asset_pilot_fastapi.Prelude.{refl, ==_refl, arith}

pub waiting-IsValid : IsValid waiting
unfolding find collides
waiting-IsValid = record {
  item_keys = (refl, (refl, tt));
  request_keys = (refl, tt);
  support_keys = tt;
  log_keys = tt;
  index_holds = λ a b x y ex ey. ground (arith, ==_refl request.id);
  booked = λ k r e. ground arith;
}

pub holding-IsValid : IsValid holding
unfolding find collides
holding-IsValid = record {
  item_keys = (refl, (refl, tt));
  request_keys = (refl, tt);
  support_keys = (refl, tt);
  log_keys = tt;
  index_holds = λ a b x y ex ey. ground (arith, ==_refl request.id);
  booked = λ k r e. ground arith;
}

pub rivalled-IsValid : IsValid rivalled
unfolding find collides
rivalled-IsValid = record {
  item_keys = (refl, (refl, tt));
  request_keys = (refl, (refl, tt));
  support_keys = (refl, tt);
  log_keys = tt;
  index_holds = λ a b x y ex ey. ground (arith, ==_refl request.id, ==_refl rival.id);
  booked = λ k r e. ground arith;
}
