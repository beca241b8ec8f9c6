-- ===== src/Seller/Sessions/Serial.antt =====
-- Requests to seller-service one after another:
-- services/seller-service/app/services/seller_service.py.
use ecommerce_platform.Base.{Bool, List, ◌∷◌, ℕ, []}
use ecommerce_platform.Seller.Table.{Database}
use ecommerce_platform.Seller.Service.Register.{SellerRegisterRequest, register_seller}
use ecommerce_platform.Seller.Sessions.{Request, serve}

pub data Call : Type 0 where
  enrol : Bool → ℕ → SellerRegisterRequest → ℕ → Call
  act : Bool → ℕ → Request → Call

unfoldable pub serve_all : List Call → Database → Database
unfolding register_seller serve
serve_all [] db = db
serve_all (enrol commits id request key ∷ more) db =
    serve_all more (register_seller commits id request key db).1
serve_all (act commits id request ∷ more) db = serve_all more (serve commits id request db).1
