-- ===== src/Address/Tests.antt =====
-- Addresses at concrete inputs.
use qpidrecovery.Base.{◌≡◌, refl, some, arith}
use qpidrecovery.Text.{codes}
use qpidrecovery.Address.{
  url_to_ip_port, split_host, parse_port, ip_port_to_url, unsigned_to_string, digits,
}
use qpidrecovery.Address.RoundTrip.{url_to_ip_port-url}

url_of : ip_port_to_url (codes "10.1.2.3") 5672 ≡ codes "10.1.2.3:5672"
unfolding ip_port_to_url unsigned_to_string digits
url_of = refl

read_back : url_to_ip_port (codes "10.1.2.3:5672") ≡ some (codes "10.1.2.3", 5672)
unfolding url_to_ip_port split_host parse_port
read_back = refl

url_to_ip_port-url_example :
    url_to_ip_port (ip_port_to_url (codes "1.2") 5672) ≡ some (codes "1.2", 5672)
url_to_ip_port-url_example = url_to_ip_port-url (codes "1.2") 5672 (omega arith) (omega arith)
