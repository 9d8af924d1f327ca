-- ===== src/Payments/Jobs.antt =====
-- The jobs of the payment queue: src/modules/payments/providers/strategies.
use dispatch_api.Prelude.{Option, none, some}
use dispatch_api.Entities.{
  Customer, UserSnapshot, JobBody, create_customer, update_customer, delete_customer, update_user,
}
use dispatch_api.Dtos.{CustomerParams, create_customer_key}
use dispatch_api.World.{Error, foreign_key_violation, M, Void, pure, raise, catch, ◌>>=◌, ◌>>◌}
use dispatch_api.Outbox
use dispatch_api.Payments.Service as Service

-- `dto.email` and `dto.name`
abbrev pub params_of : UserSnapshot → CustomerParams
params_of user = record { email = user.email; name = user.name }

-- The `catch` of CreateCustomerJobStrategy.execute: 23503 is the violation of a foreign key.
unfoldable pub skip_missing_user : Error → M Void
skip_missing_user foreign_key_violation = pure tt
skip_missing_user e = raise e

-- CreateCustomerJobStrategy.createCustomer
abbrev pub create_customer_of : UserSnapshot → M Customer
create_customer_of user =
    Service.create_customer user.id (params_of user) (create_customer_key user.id)

-- CreateCustomerJobStrategy.execute
unfoldable pub create_execute : UserSnapshot → M Void
unfolding skip_missing_user
create_execute user =
    catch
      (do customer ← create_customer_of user; Outbox.add (update_user user.id (some customer.id)))
      skip_missing_user

-- UpdateCustomerJobStrategy.updateCustomer
abbrev pub update_customer_of : UserSnapshot → M Customer
update_customer_of user = Service.update_customer user.id (params_of user)

-- UpdateCustomerJobStrategy.execute
unfoldable pub update_execute : UserSnapshot → M Void
update_execute user = do update_customer_of user; pure tt

-- DeleteCustomerJobStrategy.deleteCustomer
abbrev pub delete_customer_of : UserSnapshot → M Void
delete_customer_of user = Service.delete_customer user.id

-- DeleteCustomerJobStrategy.execute
unfoldable pub delete_execute : UserSnapshot → M Void
delete_execute user = do delete_customer_of user; Outbox.add (update_user user.id none)

-- The strategy that the payload's type stands for (payment-job-strategy.factory.ts), as it is run.
unfoldable pub execute : JobBody → Option (M Void)
unfolding create_execute update_execute delete_execute
execute (create_customer user) = some (create_execute user)
execute (update_customer user) = some (update_execute user)
execute (delete_customer user) = some (delete_execute user)
execute _ = none
