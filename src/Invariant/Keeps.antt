-- ===== src/Invariant/Keeps.antt =====
-- A handler that returns leaves a valid database: the pieces that the services share.
use asset_pilot_fastapi.Repositories.{
  update_extension_request, insert_user, update_user, update_support_request, update_request,
  insert_request, update_item, insert_item,
}
use asset_pilot_fastapi.Result.{Result}
use asset_pilot_fastapi.Result.Ensures.{Ensures, all_Ensures}
use asset_pilot_fastapi.Models.{SupportRequest, User, ExtensionRequest, Item, Request}
use asset_pilot_fastapi.Database.{Db, Env}
use asset_pilot_fastapi.Invariant.{IsBookedIfAssigned, IsValid}
use asset_pilot_fastapi.Invariant.Writes.{
  update_user-IsValid, update_extension_request-IsValid, update_support_request-IsValid,
  insert_user-IsValid, insert_request-IsValid, update_request-IsValid, insert_item-IsValid,
  append-IsValid, update_item-IsValid,
}
use asset_pilot_fastapi.Services.DeviceLog.{LogArgs, append}

abbrev pub Keeps : {A : Type 0} → Result (A × Db) → Type 0
Keeps m = Ensures (λ p. IsValid p.1) m

module _ (env : Env) (db : Db) (valid : IsValid db) where
  pub append-Keeps : (a : LogArgs) → Keeps (append env a db)
  append-Keeps a = all_Ensures _ λ p e. append-IsValid env db valid a e

  pub update_item-Keeps : (i : Item) → Keeps (update_item env i db)
  update_item-Keeps i = all_Ensures _ λ p e. update_item-IsValid env db valid i e

  pub update_request-Keeps : (r : Request) → IsBookedIfAssigned r → Keeps (update_request env r db)
  update_request-Keeps r booked =
      all_Ensures _ λ p e. update_request-IsValid env db valid r booked e

  pub update_support_request-Keeps : (s : SupportRequest) → Keeps (update_support_request env s db)
  update_support_request-Keeps s =
      all_Ensures _ λ p e. update_support_request-IsValid env db valid s e

  pub update_extension_request-Keeps :
      (x : ExtensionRequest) → Keeps (update_extension_request env x db)
  update_extension_request-Keeps x =
      all_Ensures _ λ p e. update_extension_request-IsValid env db valid x e

  pub update_user-Keeps : (u : User) → Keeps (update_user env u db)
  update_user-Keeps u = all_Ensures _ λ p e. update_user-IsValid env db valid u e

  pub insert_user-Keeps : (u : User) → Keeps (insert_user u db)
  insert_user-Keeps u = all_Ensures _ λ p e. insert_user-IsValid env db valid u e

  pub insert_item-Keeps : (i : Item) → Keeps (insert_item i db)
  insert_item-Keeps i = all_Ensures _ λ p e. insert_item-IsValid env db valid i e

  pub insert_request-Keeps : (r : Request) → IsBookedIfAssigned r → Keeps (insert_request r db)
  insert_request-Keeps r booked =
      all_Ensures _ λ p e. insert_request-IsValid env db valid r booked e
